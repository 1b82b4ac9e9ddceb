-- ===== src/Shared/SharedData/Lookup.antt =====
-- The store as a table from keys to entries.
use vmod_wasm.Base.{
  ℕ, ◌≡◌, ◌≢◌, refl, sym, ap, ◌∙◌, inl, inr, Bool, true, false, not, ◌&&◌, List, [], ◌∷◌, Option,
  none, some, arith, ◌==◌, if◌then◌else◌, Bool-cases, Option-cases, length, take, take_all, strlen,
  IsCString, Bytes, bytes_eq, bytes_eq_iff, ==_iff,
}
use vmod_wasm.Shared.SharedData.{
  SharedEntry, Buckets, bucket_of, matches, find_entry, updated, update_chain, new_entry, write,
  set_ok, cas_mismatch, set_copied,
}

abbrev pub lookup_entry : Buckets → Bytes → Option SharedEntry
lookup_entry buckets key = find_entry key (buckets (bucket_of key))

matches→ :
    (k : Bytes) (e : SharedEntry)
    → matches k e ≡ true
    → (strlen e.key ≡ length k) × (take (length k) e.key ≡ k)
matches→ k e h = ground (arith, bytes_eq_iff (take (length k) e.key) k)

-- An entry that one key matches is matched by no other key.
matches-other : (k j : Bytes) (e : SharedEntry) → matches k e ≡ true → matches j e ≡ bytes_eq k j
matches-other k j e h = elim (Bool-cases (bytes_eq k j)) [
  | inl same ↦ let s = ap (λ x. matches x e) ((bytes_eq_iff k j).0 same) in rw same (sym s ∙ h)
  | inr other ↦ elim (Bool-cases (matches j e)) [
    | inr miss ↦ rw other miss
    | inl hit ↦
        let (l1, t1) = matches→ k e h in
        let (l2, t2) = matches→ j e hit in
        let l : length k ≡ length j = sym l1 ∙ l2 in
        let s : k ≡ j = sym t1 ∙ ap (λ n. take n e.key) l ∙ t2 in
        absurd (cc (other, (bytes_eq_iff k j).1 s))
  ]
]

-- A new entry for a key without NUL is matched by that key alone.
matches-new : (k j : Bytes) (e : SharedEntry) → IsCString k → e.key ≡ k → matches j e ≡ bytes_eq k j
matches-new k j e c s =
    let l : strlen e.key ≡ length k = ap strlen s ∙ c in
    let t : take (length k) e.key ≡ k =
      ap (take (length k)) s ∙ take_all (length k) k (omega arith) in
    matches-other k j e (ground (arith, bytes_eq_iff (take (length k) e.key) k))

find_entry-update_chain :
    (k j : Bytes) (value : Option Bytes) (value_len : ℕ) (es : List SharedEntry) {old : SharedEntry}
    → find_entry k es ≡ some old
    → find_entry j (update_chain k value value_len es)
      ≡ (if bytes_eq k j then some (updated value value_len old) else find_entry j es)
unfolding find_entry update_chain
find_entry-update_chain k j value value_len [] h = absurd (cc)
find_entry-update_chain k j value value_len (x ∷ es) {old} h = elim (Bool-cases (matches k x)) [
  | inl hit ↦
      let same : ◌≡◌ {A = Option SharedEntry} (some x) (some old) = rw hit at h in
      let m : matches j (updated value value_len x) ≡ bytes_eq k j = matches-other k j x hit in
      rw hit (
        rw m (elim (Bool-cases (bytes_eq k j)) [
          | inl b ↦
              rw b
                (ap (λ (e : SharedEntry). some (updated value value_len e)) {x = x} {y = old} (cc))
          | inr b ↦ rw b refl
        ]))
  | inr miss ↦
      let ih = find_entry-update_chain k j value value_len es {old = old} (rw miss at h) in
      rw miss (elim (Bool-cases (bytes_eq k j)) [
        | inl same ↦
            let m : matches j x ≡ false =
              ap (λ y. matches y x) (sym ((bytes_eq_iff k j).0 same)) ∙ miss in
            rw m (ih ∙ rw same refl)
        | inr other ↦ rw other (elim (Bool-cases (matches j x)) [
          | inl at ↦ rw at refl
          | inr away ↦ rw away (ih ∙ rw other refl)
        ])
      ])
]

find_entry-new :
    (k j : Bytes) (value : Option Bytes) (value_len : ℕ) (es : List SharedEntry)
    → IsCString k
    → find_entry j (new_entry k value value_len ∷ es)
      ≡ (if bytes_eq k j then some (new_entry k value value_len) else find_entry j es)
unfolding find_entry
find_entry-new k j value value_len es c =
    rw (matches-new k j (new_entry k value value_len) c refl) refl

-- A chain written back under the bucket of a key, seen from every key.
lookup_entry-write :
    (k j : Bytes) (buckets : Buckets) (chain : List SharedEntry) (e : SharedEntry)
    → ((i : Bytes)
        → find_entry i chain
          ≡ (if bytes_eq k i then some e else find_entry i (buckets (bucket_of k))))
    → lookup_entry (write buckets (bucket_of k) chain) j
      ≡ (if bytes_eq k j then some e else lookup_entry buckets j)
lookup_entry-write k j buckets chain e h = elim (Bool-cases (bytes_eq k j)) [
  | inl same ↦
      let s = (bytes_eq_iff k j).0 same in
      let b = (==_iff (bucket_of k) (bucket_of j)).1 (ap bucket_of s) in
      rw (b, same) (h j ∙ rw same refl)
  | inr other ↦ elim (Bool-cases (bucket_of k == bucket_of j)) [
    | inl b ↦
        rw (b, other)
          (h j
            ∙ rw other
                (ap (λ n. find_entry j (buckets n)) ((==_iff (bucket_of k) (bucket_of j)).0 b)))
    | inr b ↦ rw (b, other) refl
  ]
]

-- The entry that an accepted write leaves: a new one, or the old one with its counter advanced.
abbrev pub entry_after : Bytes → Option Bytes → ℕ → Option SharedEntry → SharedEntry
entry_after key value value_len none = new_entry key value value_len
entry_after key value value_len (some e) = updated value value_len e

-- The write of a copied value is refused for its CAS value.
abbrev pub Mismatch : ℕ → Option SharedEntry → Type 0
Mismatch cas none = ⊥
Mismatch cas (some e) = (cas ≢ 0) × (e.cas ≢ cas)

accepted :
    (cas : ℕ) (e : SharedEntry)
    → ¬ Mismatch cas (some e)
    → (not (cas == 0) && not (e.cas == cas)) ≡ false
accepted cas e fits = elim (Bool-cases (not (cas == 0) && not (e.cas == cas))) [
  | inl b ↦ absurd (fits (ground arith))
  | inr b ↦ b
]

refused :
    (cas : ℕ) (e : SharedEntry)
    → Mismatch cas (some e)
    → (not (cas == 0) && not (e.cas == cas)) ≡ true
refused cas e m = ground arith

pub set_copied_written :
    (buckets : Buckets) (key : Bytes) (value : Option Bytes) (value_len cas : ℕ)
    → IsCString key
    → ¬ Mismatch cas (lookup_entry buckets key)
    → ((set_copied true buckets key value value_len cas).1 ≡ set_ok)
      × ((j : Bytes)
          → lookup_entry (set_copied true buckets key value value_len cas).0 j ≡ (
              if bytes_eq key j
              then some (entry_after key value value_len (lookup_entry buckets key))
              else lookup_entry buckets j))
unfolding set_copied
set_copied_written buckets key value value_len cas c fits =
    let chain = buckets (bucket_of key) in
    elim (Option-cases (find_entry key chain)) [
      | inl nothing ↦
          rw (nothing, set_copied)
            (
              refl,
              λ j.
                  lookup_entry-write key j buckets _ (new_entry key value value_len)
                    (λ i. find_entry-new key i value value_len chain c),
            )
      | inr (e, found) ↦
          let test : (not (cas == 0) && not (e.cas == cas)) ≡ false =
            accepted cas e (λ m. fits (rw found m)) in
          rw (found, set_copied)
            (rw test (
              refl,
              λ j.
                  lookup_entry-write key j buckets _ (updated value value_len e)
                    (λ i. find_entry-update_chain key i value value_len chain found),
            ))
    ]

pub set_copied-Mismatch :
    (entry_ok : Bool) (buckets : Buckets) (key : Bytes) (value : Option Bytes) (value_len cas : ℕ)
    → Mismatch cas (lookup_entry buckets key)
    → set_copied entry_ok buckets key value value_len cas ≡ (buckets, cas_mismatch)
unfolding set_copied
set_copied-Mismatch entry_ok buckets key value value_len cas m =
    elim (Option-cases (find_entry key (buckets (bucket_of key)))) [
      | inl nothing ↦ absurd (rw nothing at m)
      | inr (e, found) ↦
          let test : (not (cas == 0) && not (e.cas == cas)) ≡ true =
            refused cas e (rw found at m) in
          rw (found, set_copied) (rw test refl)
    ]
