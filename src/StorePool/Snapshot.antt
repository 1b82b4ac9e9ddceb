-- ===== src/StorePool/Snapshot.antt =====
-- What the restored memory of a slot holds.
use vmod_wasm.Base.{
  ℕ, zero, suc, ◌≡◌, ◌≤◌, refl, ◌∙◌, inl, inr, arith, true, false, [], ◌∷◌, ◌++◌, ltb,
  if◌then◌else◌, Bool-cases, length, get_elem?, drop, Bytes,
}
use vmod_wasm.StorePool.{warm_restore}

get_elem?-overlay :
    (snapshot memory : Bytes) (i : ℕ)
    → length snapshot ≤ length memory
    → get_elem? (snapshot ++ drop (length snapshot) memory) i
      ≡ (if ltb i (length snapshot) then get_elem? snapshot i else get_elem? memory i)
get_elem?-overlay [] memory i h = let e : ltb i 0 ≡ false = ground arith in rw e refl
get_elem?-overlay (x ∷ snapshot) [] i h = absurd (omega arith)
get_elem?-overlay (x ∷ snapshot) (y ∷ memory) zero h =
    let e : ltb 0 (suc (length snapshot)) ≡ true = ground arith in rw e refl
get_elem?-overlay (x ∷ snapshot) (y ∷ memory) (suc i) h =
    let ih = get_elem?-overlay snapshot memory i (omega arith) in
    elim (Bool-cases (ltb i (length snapshot))) [
      | inl below ↦
          let e : ltb (suc i) (suc (length snapshot)) ≡ true = ground arith in
          rw e (ih ∙ rw below refl)
      | inr above ↦
          let e : ltb (suc i) (suc (length snapshot)) ≡ false = ground arith in
          rw e (ih ∙ rw above refl)
    ]

-- A memory that is no shorter than the snapshot is restored up to the length of the snapshot, and
-- every byte behind that is the one that the previous request left.
pub warm_restore_leaves :
    (snapshot memory : Bytes)
    → length snapshot ≤ length memory
    → ((warm_restore snapshot memory).1 ≡ true)
      × ((i : ℕ)
          → get_elem? (warm_restore snapshot memory).0 i
            ≡ (if ltb i (length snapshot) then get_elem? snapshot i else get_elem? memory i))
unfolding warm_restore
warm_restore_leaves snapshot memory h =
    let e : ltb (length memory) (length snapshot) ≡ false = ground arith in
    rw e (refl, λ i. get_elem?-overlay snapshot memory i h)
