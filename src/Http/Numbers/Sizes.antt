-- ===== src/Http/Numbers/Sizes.antt =====
-- What the two number parsers accept, and the values that they give.
use vmod_wasm.Base.{
  ℕ, ◌+◌, ◌-◌, ◌*◌, ◌/◌, ◌≤◌, ◌≡◌, refl, ap, ◌∙◌, inl, inr, Bool, true, false, not, ◌&&◌, [], ◌∷◌,
  ◌++◌, Option, none, some, ltb, leb, arith, ◌==◌, if◌then◌else◌, Bool-cases, length, Bytes,
}
use vmod_wasm.Base.Decimal.{
  is_digit, all_digits, value_from, decimal, value_from-decimal, all_digits-decimal,
  length-decimal_pos,
}
use vmod_wasm.Http.Numbers.{
  size_max, is_blank, skip_blanks, parse_digits, parse_size, port_digits, parse_port,
}

value_from-ge : (v : ℕ) (ds : Bytes) → v ≤ value_from v ds
value_from-ge v [] = omega arith
value_from-ge v (d ∷ ds) = omega (arith, value_from-ge (v * 10 + (d - b'0')) ds)

-- The port that digits stand for, if it is one.
abbrev port_of : ℕ → Option ℕ
port_of n = if leb 1 n && leb n 65535 then some n else none

port_digits_lem :
    (v : ℕ) (s : Bytes)
    → v ≤ 65535
    → port_digits v s ≡ (if all_digits s then port_of (value_from v s) else none)
unfolding port_digits
port_digits_lem v [] h = ground arith
port_digits_lem v (c ∷ s) h = elim (Bool-cases (is_digit c)) [
  | inr other ↦ ground arith
  | inl digit ↦ elim (Bool-cases (ltb 65535 (v * 10 + (c - b'0')))) [
    | inl large ↦ let g = value_from-ge (v * 10 + (c - b'0')) s in rw large (ground arith)
    | inr small ↦
        let ih = port_digits_lem (v * 10 + (c - b'0')) s (ground arith) in rw small (ground arith)
  ]
]

-- A port is parsed exactly from a non-empty text of decimal digits whose value is 1 to 65535, and is
-- that value.
pub parse_port_lem :
    (s : Bytes)
    → parse_port s ≡ (
        if not (length s == 0) && all_digits s
        then if leb 1 (value_from 0 s) && leb (value_from 0 s) 65535
          then some (value_from 0 s)
          else none
        else none)
unfolding parse_port
parse_port_lem [] = refl
parse_port_lem (c ∷ s) =
    let some_text : (length (c ∷ s) == 0) ≡ false = ground arith in
    rw some_text (port_digits_lem 0 (c ∷ s) (omega arith))

pub parse_port-decimal : (p : ℕ) → 1 ≤ p → p ≤ 65535 → parse_port (decimal p) ≡ some p
parse_port-decimal p lo hi =
    let n : (length (decimal p) == 0) ≡ false = let h = length-decimal_pos p in ground arith in
    parse_port_lem (decimal p) ∙ rw (n, all_digits-decimal p, value_from-decimal p) (ground arith)

abbrev all_blank : Bytes → Bool
all_blank [] = true
all_blank (c ∷ cs) = is_blank c && all_blank cs

skip_blanks_all : (bs : Bytes) → all_blank bs ≡ true → skip_blanks bs ≡ []
unfolding skip_blanks
skip_blanks_all [] h = refl
skip_blanks_all (b ∷ bs) h = ground (arith, skip_blanks_all bs)

-- Behind blanks.
skip_blanks-append :
    (bs : Bytes) (c : ℕ) (rest : Bytes)
    → all_blank bs ≡ true
    → is_blank c ≡ false
    → skip_blanks (bs ++ (c ∷ rest)) ≡ c ∷ rest
unfolding skip_blanks
skip_blanks-append [] c rest h n = rw n refl
skip_blanks-append (b ∷ bs) c rest h n = ground (arith, skip_blanks-append bs c rest)

parse_digits_end : (v : ℕ) (bs : Bytes) → all_blank bs ≡ true → parse_digits v true bs ≡ some v
unfolding parse_digits
parse_digits_end v [] h = refl
parse_digits_end v (b ∷ bs) h =
    let e = skip_blanks_all bs (ground arith) in
    let l : length (skip_blanks bs) ≡ 0 = ap length e in ground arith

parse_digits_lem :
    (v : ℕ) (seen : Bool) (d : ℕ) (ds bs : Bytes)
    → v ≤ size_max
    → all_digits (d ∷ ds) ≡ true
    → all_blank bs ≡ true
    → parse_digits v seen (d ∷ (ds ++ bs))
      ≡ (if leb (value_from v (d ∷ ds)) size_max then some (value_from v (d ∷ ds)) else none)
unfolding parse_digits
parse_digits_lem v seen d [] bs h digits blanks =
    elim (Bool-cases (ltb ((size_max - (d - b'0')) / 10) v)) [
      | inl large ↦ rw large (ground arith)
      | inr small ↦
          let e = parse_digits_end (v * 10 + (d - b'0')) bs blanks in rw (small, e) (ground arith)
    ]
parse_digits_lem v seen d (d2 ∷ ds) bs h digits blanks =
    elim (Bool-cases (ltb ((size_max - (d - b'0')) / 10) v)) [
      | inl large ↦ let g = value_from-ge (v * 10 + (d - b'0')) (d2 ∷ ds) in rw large (ground arith)
      | inr small ↦
          let ih =
            parse_digits_lem (v * 10 + (d - b'0')) true d2 ds bs (ground arith) (ground arith)
              blanks in
          rw small (ground arith)
    ]

-- Digits between blanks are parsed to their value, if it fits in a `size_t`, and else refused.
pub parse_size_lem :
    (before : Bytes) (d : ℕ) (ds after : Bytes)
    → all_blank before ≡ true
    → all_digits (d ∷ ds) ≡ true
    → all_blank after ≡ true
    → parse_size (before ++ (d ∷ (ds ++ after)))
      ≡ (if leb (value_from 0 (d ∷ ds)) size_max then some (value_from 0 (d ∷ ds)) else none)
unfolding parse_size
parse_size_lem before d ds after before_blank digits after_blank =
    rw (skip_blanks-append before d (ds ++ after) before_blank (ground arith))
      (parse_digits_lem 0 false d ds after (omega arith) digits after_blank)
