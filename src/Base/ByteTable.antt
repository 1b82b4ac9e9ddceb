-- ===== src/Base/ByteTable.antt =====
-- A Boolean fact about every number below a bound, by evaluation.
use vmod_wasm.Base.{ℕ, zero, suc, ◌<◌, ◌≡◌, Bool, true, false, ◌&&◌, arith}

unfoldable pub holds_below : ℕ → (ℕ → Bool) → Bool
holds_below zero p = true
holds_below (suc n) p = p n && holds_below n p

pub holds_below_at : (n : ℕ) (p : ℕ → Bool) (x : ℕ) → holds_below n p ≡ true → x < n → p x ≡ true
unfolding holds_below
holds_below_at zero p x h lt = elim lt [ ]
holds_below_at (suc n) p x h lt = ground (arith, holds_below_at n p x)

abbrev pub same_bool : Bool → Bool → Bool
same_bool true true = true
same_bool true false = false
same_bool false true = false
same_bool false false = true

pub same_bool→eq : (a b : Bool) → same_bool a b ≡ true → a ≡ b
same_bool→eq a b h = ground arith
