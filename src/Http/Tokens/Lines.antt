-- ===== src/Http/Tokens/Lines.antt =====
-- What pw_http_append_header writes.
use vmod_wasm.Base.{
  ℕ, ◌-◌, ◌≤◌, ◌<◌, ◌≡◌, refl, sym, inl, inr, true, false, not, ◌||◌, [], ◌∷◌, ◌++◌, some, ltb, leb,
  arith, ◌==◌, Bool-cases, length, length-append, Bytes,
}
use vmod_wasm.Http.Tokens.{
  is_token_char, has_line_ctl, is_value_char, is_path_char, method_ok, path_ok, every,
  header_name_ok, header_value_ok, int_max, crlf, header_line, append_header,
}

-- A token character is a visible ASCII character, and no colon.
is_token_char_bounds :
    (c : ℕ) → is_token_char c ≡ true → (32 < c) × ((c < 127) × ((c == b':') ≡ false))
unfolding is_token_char
is_token_char_bounds c h = ground arith

token_has_line_ctl : (s : Bytes) → every is_token_char s ≡ true → has_line_ctl s ≡ false
unfolding has_line_ctl
token_has_line_ctl [] h = refl
token_has_line_ctl (c ∷ s) h = elim (Bool-cases (is_token_char c)) [
  | inl t ↦
      let b = is_token_char_bounds c t in
      let ih = token_has_line_ctl s (rw t at h) in ground (arith)
  | inr n ↦ absurd (cc (rw n at h))
]

value_has_line_ctl : (s : Bytes) → header_value_ok s ≡ true → has_line_ctl s ≡ false
unfolding has_line_ctl header_value_ok
value_has_line_ctl [] h = refl
value_has_line_ctl (c ∷ s) h = elim (Bool-cases (is_value_char c)) [
  | inl t ↦ let ih = value_has_line_ctl s (rw t at h) in ground (arith)
  | inr n ↦ absurd (cc (rw n at h))
]

name_has_line_ctl : (s : Bytes) → header_name_ok s ≡ true → has_line_ctl s ≡ false
unfolding header_name_ok
name_has_line_ctl s h = token_has_line_ctl s (ground arith)

name-length_pos : (s : Bytes) → header_name_ok s ≡ true → 0 < length s
unfolding header_name_ok
name-length_pos s h = ground arith

-- What a header that was appended is: one whole line, which fits.
abbrev pub IsAppended : ℕ → Bytes → Bytes → Bytes → Bytes → Type 0
IsAppended dst_sz dst key value out =
    (out ≡ dst ++ header_line key value)
    × ((has_line_ctl key ≡ false)
        × ((has_line_ctl value ≡ false) × ((0 < length key) × (length out < dst_sz))))

-- A header that is appended adds the line "key: value" with its line break and nothing else, leaves
-- room for the terminating NUL, and neither its name nor its value can break the line or end the text.
pub append_header-IsAppended :
    (dst_sz : ℕ) (dst key value out : Bytes)
    → append_header dst_sz dst key value ≡ some out
    → IsAppended dst_sz dst key value out
unfolding append_header
append_header-IsAppended dst_sz dst key value out h =
    elim (Bool-cases (not (header_name_ok key) || not (header_value_ok value))) [
      | inl bad ↦ absurd (cc (rw bad at h))
      | inr good ↦
          let key_ok : header_name_ok key ≡ true = ground arith in
          let value_ok : header_value_ok value ≡ true = ground arith in
          let l = length-append dst (header_line key value) in
          let h2 = rw good at h in
          elim (Bool-cases (ltb int_max (length key) || ltb int_max (length value))) [
            | inl big ↦ absurd (cc (rw big at h2))
            | inr short ↦
                let h3 = rw short at h2 in
                elim (Bool-cases (leb dst_sz (length dst))) [
                  | inl full ↦ absurd (cc (rw full at h3))
                  | inr room ↦
                      let h4 = rw room at h3 in
                      elim (Bool-cases (
                        ltb int_max (length (header_line key value))
                        || leb (dst_sz - length dst) (length (header_line key value)))) [
                          | inl over ↦ absurd (cc (rw over at h4))
                          | inr fits ↦
                              let e : some (dst ++ header_line key value) ≡ some out =
                                rw fits at h4 in
                              let e2 : dst ++ header_line key value ≡ out = cc e in
                              (
                                sym e2,
                                (
                                  name_has_line_ctl key key_ok,
                                  (
                                    value_has_line_ctl value value_ok,
                                    (name-length_pos key key_ok, rw (sym e2) (ground arith)),
                                  ),
                                ),
                              )
                        ]
                ]
          ]
    ]

-- A header of token characters, with a value without control characters, is appended if its line has
-- at most INT_MAX bytes and fits the buffer with its terminating NUL.
pub append_header_fits :
    (dst_sz : ℕ) (dst key value : Bytes)
    → header_name_ok key ≡ true
    → header_value_ok value ≡ true
    → length (header_line key value) ≤ int_max
    → length (dst ++ header_line key value) < dst_sz
    → append_header dst_sz dst key value ≡ some (dst ++ header_line key value)
unfolding append_header
append_header_fits dst_sz dst key value key_ok value_ok line_len fits =
    let l = length-append dst (header_line key value) in
    let k = length-append key (b':' ∷ b' ' ∷ (value ++ crlf)) in
    let v = length-append value crlf in
    let short : (ltb int_max (length key) || ltb int_max (length value)) ≡ false = ground arith in
    let room : leb dst_sz (length dst) ≡ false = ground arith in
    let line : (ltb int_max (length (header_line key value))
          || leb (dst_sz - length dst) (length (header_line key value)))
        ≡ false =
      ground arith in
    rw (key_ok, value_ok, short, room, line) refl

pub method_has_line_ctl : (s : Bytes) → method_ok s ≡ true → has_line_ctl s ≡ false
unfolding method_ok
method_has_line_ctl s h = token_has_line_ctl s (ground arith)

every_path_has_line_ctl : (s : Bytes) → every is_path_char s ≡ true → has_line_ctl s ≡ false
unfolding has_line_ctl
every_path_has_line_ctl [] h = refl
every_path_has_line_ctl (c ∷ s) h = elim (Bool-cases (is_path_char c)) [
  | inl t ↦ let ih = every_path_has_line_ctl s (rw t at h) in ground (arith)
  | inr n ↦ absurd (cc (rw n at h))
]

pub path_has_line_ctl : (s : Bytes) → path_ok s ≡ true → has_line_ctl s ≡ false
unfolding path_ok
path_has_line_ctl s h = every_path_has_line_ctl s (ground arith)
