-- ===== src/Http/Tokens/Hosts.antt =====
-- Hosts and numerals hold no line breaks.
use vmod_wasm.Base.{
  ℕ, ◌<◌, ◌≡◌, refl, ◌∙◌, inl, inr, true, false, ◌||◌, [], ◌∷◌, ◌++◌, arith, ◌==◌, Bool-cases,
  length, Bytes,
}
use vmod_wasm.Base.Decimal.{all_digits}
use vmod_wasm.Http.Tokens.{has_line_ctl, host_ok, every, is_host_char}

pub digits_has_line_ctl : (ds : Bytes) → all_digits ds ≡ true → has_line_ctl ds ≡ false
unfolding has_line_ctl
digits_has_line_ctl [] h = refl
digits_has_line_ctl (d ∷ ds) h = ground (arith, digits_has_line_ctl ds)

host_char_lem : (c : ℕ) → is_host_char c ≡ true → (c == 0 || (c == 13 || c == 10)) ≡ false
host_char_lem c h = ground arith

host_has_line_ctl :
    (s rest : Bytes) → every is_host_char s ≡ true → has_line_ctl (s ++ rest) ≡ has_line_ctl rest
unfolding has_line_ctl
host_has_line_ctl [] rest h = refl
host_has_line_ctl (c ∷ s) rest h = elim (Bool-cases (is_host_char c)) [
  | inl t ↦ rw (host_char_lem c t) (host_has_line_ctl s rest (rw t at h))
  | inr n ↦ absurd (cc (rw n at h))
]

colon_has_line_ctl : (s : Bytes) → has_line_ctl (b':' ∷ s) ≡ has_line_ctl s
unfolding has_line_ctl
colon_has_line_ctl s = refl

-- A proper host before a colon and digits has none.
pub host_digits_has_line_ctl :
    (host ds : Bytes)
    → host_ok host ≡ true
    → all_digits ds ≡ true
    → has_line_ctl (host ++ (b':' ∷ ds)) ≡ false
unfolding host_ok
host_digits_has_line_ctl host ds ok digits =
    host_has_line_ctl host (b':' ∷ ds) (ground arith)
    ∙ colon_has_line_ctl ds
    ∙ digits_has_line_ctl ds digits

pub host_ok-length_pos : (s : Bytes) → host_ok s ≡ true → 0 < length s
unfolding host_ok
host_ok-length_pos s h = ground arith
