-- ===== src/Base/Decimal.antt =====
-- `%u`: decimal numerals, and the number that a list of digits stands for.
use vmod_wasm.Base.{
  ℕ, zero, suc, ◌+◌, ◌-◌, ◌*◌, ◌/◌, ◌%◌, ◌<◌, ◌≡◌, refl, sym, ap, ◌∙◌, Bool, true, ◌&&◌, inl, inr,
  [], ◌∷◌, ◌++◌, arith, ltb, leb, if◌then◌else◌, Bool-cases, length, Bytes,
}

abbrev pub is_digit : ℕ → Bool
is_digit c = leb b'0' c && leb c b'9'

abbrev pub all_digits : Bytes → Bool
all_digits [] = true
all_digits (c ∷ cs) = is_digit c && all_digits cs

-- The digits of `n`, most significant first, on fuel above `n`.
decimal_fuel : ℕ → ℕ → Bytes
decimal_fuel zero n = []
decimal_fuel (suc f) n =
    let rest = decimal_fuel f (n / 10) ++ (b'0' + n % 10) ∷ [] in
    if ltb n 10 then (b'0' + n) ∷ [] else rest

unfoldable pub decimal : ℕ → Bytes
unfolding decimal_fuel
decimal n = decimal_fuel (suc n) n

-- The value of digits read from left to right, after the value `acc`.
abbrev pub value_from : ℕ → Bytes → ℕ
value_from acc [] = acc
value_from acc (c ∷ cs) = value_from (acc * 10 + (c - b'0')) cs

value_from-concat :
    (acc : ℕ) (cs : Bytes) (c : ℕ)
    → value_from acc (cs ++ c ∷ []) ≡ value_from acc cs * 10 + (c - b'0')
value_from-concat acc [] c = refl
value_from-concat acc (x ∷ cs) c = value_from-concat (acc * 10 + (x - b'0')) cs c

all_digits-concat :
    (cs : Bytes) (c : ℕ)
    → all_digits cs ≡ true
    → is_digit c ≡ true
    → all_digits (cs ++ c ∷ []) ≡ true
all_digits-concat [] c h d = ground arith
all_digits-concat (x ∷ cs) c h d = ground (arith, all_digits-concat cs c)

decimal_fuel_value : (f n : ℕ) → n < f → value_from 0 (decimal_fuel f n) ≡ n
unfolding decimal_fuel
decimal_fuel_value zero n h = elim h [ ]
decimal_fuel_value (suc f) n h = elim (Bool-cases (ltb n 10)) [
  | inl small ↦ rw small (omega arith)
  | inr large ↦ rw large (
      value_from-concat 0 (decimal_fuel f (n / 10)) (b'0' + n % 10)
      ∙ rw (decimal_fuel_value f (n / 10) (ground arith)) (omega arith))
]

decimal_fuel_digits : (f n : ℕ) → all_digits (decimal_fuel f n) ≡ true
unfolding decimal_fuel
decimal_fuel_digits zero n = refl
decimal_fuel_digits (suc f) n = elim (Bool-cases (ltb n 10)) [
  | inl small ↦ rw small (ground arith)
  | inr large ↦ rw large (
      all_digits-concat (decimal_fuel f (n / 10)) (b'0' + n % 10) (decimal_fuel_digits f (n / 10))
        (ground arith))
]

concat-pos : (cs : Bytes) (c : ℕ) → 0 < length (cs ++ c ∷ [])
concat-pos [] c = omega arith
concat-pos (x ∷ cs) c = omega arith

-- The numeral of `n` has the value `n`.
pub value_from-decimal : (n : ℕ) → value_from 0 (decimal n) ≡ n
unfolding decimal
value_from-decimal n = decimal_fuel_value (suc n) n (omega arith)

pub all_digits-decimal : (n : ℕ) → all_digits (decimal n) ≡ true
unfolding decimal
all_digits-decimal n = decimal_fuel_digits (suc n) n

pub length-decimal_pos : (n : ℕ) → 0 < length (decimal n)
unfolding decimal decimal_fuel
length-decimal_pos n = elim (Bool-cases (ltb n 10)) [
  | inl small ↦ rw small (omega arith)
  | inr large ↦ rw large (concat-pos (decimal_fuel n (n / 10)) (b'0' + n % 10))
]

-- So two numbers with one numeral are equal.
pub decimal-injective : (m n : ℕ) → decimal m ≡ decimal n → m ≡ n
decimal-injective m n e = sym (value_from-decimal m) ∙ ap (value_from 0) e ∙ value_from-decimal n

decimal_runs : decimal 8080 ≡ b'8' ∷ b'0' ∷ b'8' ∷ b'0' ∷ []
unfolding decimal
decimal_runs = refl
