-- ===== src/Http/Replies/Ends.antt =====
-- Where strstr finds the end of the headers, in pw_proxy_http_call of src/proxy_wasm_http.c, as the buffer
-- grows or is cut.
use mathlib.Core.Option.{some-injective}
use vmod_wasm.Base.{
  ℕ, zero, suc, ◌≤◌, ◌≡◌, refl, sym, ap, ◌∙◌, ◌⊎◌, inl, inr, Bool, true, false, List, [], ◌∷◌, ◌++◌,
  Option, none, some, length, take, drop, Bytes, arith,
}
use vmod_wasm.Http.Replies.{header_end, end_from, starts_blank_line}

module _ {ℓ} {A : Type ℓ} where
  pub take-append : (k : ℕ) (xs ys : List A) → k ≤ length xs → take k (xs ++ ys) ≡ take k xs
  take-append zero xs ys h = refl
  take-append (suc k) [] ys h = elim h [ ]
  take-append (suc k) (x ∷ xs) ys h = ap (◌∷◌ x) (take-append k xs ys (omega arith))

  pub append-take-drop : (k : ℕ) (xs : List A) → take k xs ++ drop k xs ≡ xs
  append-take-drop zero xs = refl
  append-take-drop (suc k) [] = refl
  append-take-drop (suc k) (x ∷ xs) = ap (◌∷◌ x) (append-take-drop k xs)

  pub length-take : (k : ℕ) (xs : List A) → k ≤ length xs → length (take k xs) ≡ k
  length-take zero xs h = refl
  length-take (suc k) [] h = elim h [ ]
  length-take (suc k) (x ∷ xs) h = ap suc (length-take k xs (omega arith))

  pub length-take_le : (k : ℕ) (xs : List A) → length (take k xs) ≤ length xs
  length-take_le zero xs = ground arith
  length-take_le (suc k) [] = ground arith
  length-take_le (suc k) (x ∷ xs) = omega (arith, length-take_le k xs)

starts_blank_line-append :
    (b x : Bytes) → 4 ≤ length b → starts_blank_line (b ++ x) ≡ starts_blank_line b
starts_blank_line-append (c ∷ c1 ∷ c2 ∷ c3 ∷ b) x h = refl
starts_blank_line-append [] x h = absurd (ground arith)
starts_blank_line-append (c ∷ []) x h = absurd (ground arith)
starts_blank_line-append (c ∷ c1 ∷ []) x h = absurd (ground arith)
starts_blank_line-append (c ∷ c1 ∷ c2 ∷ []) x h = absurd (ground arith)

starts_blank_line_long : (b : Bytes) → starts_blank_line b ≡ true → 4 ≤ length b
starts_blank_line_long (c ∷ c1 ∷ c2 ∷ c3 ∷ b) h = omega arith
starts_blank_line_long [] h = cc h
starts_blank_line_long (c ∷ []) h = cc h
starts_blank_line_long (c ∷ c1 ∷ []) h = cc h
starts_blank_line_long (c ∷ c1 ∷ c2 ∷ []) h = cc h

-- The end is found at once, or later.
pub end_from_cases :
    (here is_nul : Bool) (later : Option ℕ) {n : ℕ}
    → end_from here is_nul later ≡ some n
    → ((here ≡ true) × (n ≡ 4))
      ⊎ ((m : ℕ) × (here ≡ false) × (is_nul ≡ false) × (later ≡ some m) × (n ≡ suc m))
end_from_cases true is_nul later e = inl (refl, sym (some-injective _ _ e))
end_from_cases false true later e = cc e
end_from_cases false false none e = cc e
end_from_cases false false (some m) e = inr (m, refl, refl, refl, sym (some-injective _ _ e))

-- The end of the headers is behind four bytes at least, and in the buffer.
pub header_end_bounds : (b : Bytes) {n : ℕ} → header_end b ≡ some n → (4 ≤ n) × (n ≤ length b)
unfolding header_end
header_end_bounds [] e = cc e
header_end_bounds (c ∷ cs) e = elim (end_from_cases _ _ _ e) [
  | inl (s, k) ↦ (omega (arith, k), omega (arith, k, starts_blank_line_long (c ∷ cs) s))
  | inr (m, s, z, e', k) ↦
      let (lo, hi) = header_end_bounds cs e' in (omega (arith, k, lo), omega (arith, k, hi))
]

-- The end stays where it is when bytes are added.
pub header_end-append : (b x : Bytes) {n : ℕ} → header_end b ≡ some n → header_end (b ++ x) ≡ some n
unfolding header_end
header_end-append [] x e = cc e
header_end-append (c ∷ cs) x e = elim (end_from_cases _ _ _ e) [
  | inl (s, k) ↦
      rw (starts_blank_line-append (c ∷ cs) x (starts_blank_line_long (c ∷ cs) s), s, k) refl
  | inr (m, s, z, e', k) ↦
      rw
        (
          starts_blank_line-append (c ∷ cs) x
              (omega (arith, (header_end_bounds cs e').0, (header_end_bounds cs e').1)),
          s,
          z,
          header_end-append cs x e',
          k,
        )
        refl
]

-- And it stays where it is when bytes behind it are cut off.
pub header_end_of_prefix :
    (b x : Bytes) {n : ℕ} → header_end (b ++ x) ≡ some n → n ≤ length b → header_end b ≡ some n
unfolding header_end
header_end_of_prefix [] x e h = absurd (omega (arith, h, (header_end_bounds x e).0))
header_end_of_prefix (c ∷ cs) x e h = elim (end_from_cases _ _ _ e) [
  | inl (s, k) ↦ rw (sym (starts_blank_line-append (c ∷ cs) x (omega (arith, k, h))) ∙ s, k) refl
  | inr (m, s, z, e', k) ↦
      let same =
        starts_blank_line-append (c ∷ cs) x
          (omega (arith, k, h, (header_end_bounds (cs ++ x) e').0)) in
      rw (sym same ∙ s, z, header_end_of_prefix cs x e' (omega (arith, k, h)), k) refl
]
