-- ===== src/HttpPool/Cache/Keys.antt =====
-- Different requests have different keys, as long as method and host hold no colon.
use vmod_wasm.Base.{ℕ, ◌≡◌, ◌≢◌, refl, true, [], ◌∷◌, ◌++◌, arith, Bytes}
use vmod_wasm.Base.Decimal.{decimal, decimal-injective, all_digits, all_digits-decimal}
use vmod_wasm.HttpPool.Cache.{make_cache_key}

-- No byte of the text is `c`.
abbrev pub Lacks : ℕ → Bytes → Type 0
Lacks c [] = Unit {0}
Lacks c (x ∷ xs) = (x ≢ c) × Lacks c xs

Lacks-digits : (ds : Bytes) → all_digits ds ≡ true → Lacks b':' ds
Lacks-digits [] h = tt
Lacks-digits (d ∷ ds) h = (λ e. ground arith, Lacks-digits ds (ground arith))

-- A text is split in one way at its first separator.
pub split_first :
    (c : ℕ) (xs ys as_rest bs_rest : Bytes)
    → Lacks c xs
    → Lacks c ys
    → xs ++ (c ∷ as_rest) ≡ ys ++ (c ∷ bs_rest)
    → (xs ≡ ys) × (as_rest ≡ bs_rest)
split_first c [] [] r s h k e = (refl, cc)
split_first c [] (y ∷ ys) r s h k e = absurd (k.0 (cc))
split_first c (x ∷ xs) [] r s h k e = absurd (h.0 (cc))
split_first c (x ∷ xs) (y ∷ ys) r s h k e =
    let (p, q) = split_first c xs ys r s h.1 k.1 (cc) in (cc, q)

-- Two requests whose methods and hosts hold no colon have one key only if they agree in method,
-- host, port and path.
pub make_cache_key-injective :
    (m1 m2 h1 h2 : Bytes) (p1 p2 : ℕ) (path1 path2 : Bytes)
    → Lacks b':' m1
    → Lacks b':' m2
    → Lacks b':' h1
    → Lacks b':' h2
    → make_cache_key m1 h1 p1 path1 ≡ make_cache_key m2 h2 p2 path2
    → (m1 ≡ m2) × (h1 ≡ h2) × (p1 ≡ p2) × (path1 ≡ path2)
unfolding make_cache_key
make_cache_key-injective m1 m2 h1 h2 p1 p2 path1 path2 lm1 lm2 lh1 lh2 e =
    let (em, e2) = split_first b':' m1 m2 _ _ lm1 lm2 e in
    let (eh, e3) = split_first b':' h1 h2 _ _ lh1 lh2 e2 in
    let (ep, e4) =
      split_first b':' (decimal p1) (decimal p2) path1 path2
        (Lacks-digits (decimal p1) (all_digits-decimal p1))
        (Lacks-digits (decimal p2) (all_digits-decimal p2)) e3 in
    (em, eh, decimal-injective p1 p2 ep, e4)
