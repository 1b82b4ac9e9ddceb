-- ===== src/Headers/Trailers/Lookup.antt =====
-- The values that the names of a trailer map have, after a replace.
use vmod_wasm.Base.{
  ◌+◌, ◌≡◌, ◌≤◌, ◌<◌, refl, sym, ap, ◌∙◌, inl, inr, arith, Bool, true, false, ◌&&◌, [], ◌∷◌, ◌++◌,
  Option, none, some, leb, ◌==◌, if◌then◌else◌, Bool-cases, Option-cases, length, Bytes, bytes_eq,
  bytes_eq_iff, bytes_eq_refl,
}
use vmod_wasm.Headers.Trailers.{
  TrailerEntry, Trailers, max_trailers, same_text, has_name, trailer_get, trailer_add,
  trailer_remove, trailer_replace,
}
use vmod_wasm.Headers.Trailers.Laws.{
  same_text_refl, count_of, count_of-append, count_of-trailer_remove, count_named-trailer_remove,
}

same_text_common :
    (a b c : Bytes)
    → length a ≡ length b
    → length a ≡ length c
    → same_text a b ≡ true
    → same_text a c ≡ true
    → same_text b c ≡ true
unfolding same_text
same_text_common [] [] c hb hc p q = refl
same_text_common [] (y ∷ b) c hb hc p q = absurd (omega arith)
same_text_common (x ∷ a) [] c hb hc p q = absurd (omega arith)
same_text_common (x ∷ a) (y ∷ b) [] hb hc p q = absurd (omega arith)
same_text_common (x ∷ a) (y ∷ b) (z ∷ c) hb hc p q = ground (arith, same_text_common a b c)

-- Two texts that name no entry in common.
pub has_name_apart :
    (name k : Bytes) (e : TrailerEntry)
    → (length name == length k && same_text name k) ≡ false
    → has_name name e ≡ true
    → has_name k e ≡ false
has_name_apart name k e apart h = elim (Bool-cases (has_name k e)) [
  | inl both ↦
      let same =
        same_text_common e.name name k (ground arith) (ground arith) (ground arith)
          (ground arith) in
      absurd (ground arith)
  | inr other ↦ other
]

trailer_get-none :
    (tm : Trailers) (name : Bytes) → count_of (has_name name) tm ≡ 0 → trailer_get tm name ≡ none
unfolding trailer_get
trailer_get-none [] name h = refl
trailer_get-none (e ∷ es) name h = elim (Bool-cases (has_name name e)) [
  | inl hit ↦ let h2 : 1 + count_of (has_name name) es ≡ 0 = rw hit at h in absurd (omega arith)
  | inr miss ↦
      let h2 : 0 + count_of (has_name name) es ≡ 0 = rw miss at h in
      rw miss (trailer_get-none es name (omega arith))
]

-- The entries with a name and a value.
abbrev holds : Bytes → Bytes → TrailerEntry → Bool
holds name v e = has_name name e && bytes_eq e.value v

count_of-holds :
    (tm : Trailers) (name v : Bytes) → count_of (holds name v) tm ≤ count_of (has_name name) tm
count_of-holds [] name v = omega arith
count_of-holds (e ∷ es) name v =
    let ih = count_of-holds es name v in
    elim (Bool-cases (has_name name e)) [
      | inl hit ↦ rw hit (ground arith)
      | inr miss ↦ rw miss (ground arith)
    ]

trailer_get-some :
    (tm : Trailers) (name v : Bytes)
    → count_of (has_name name) tm ≤ 1
    → 1 ≤ count_of (holds name v) tm
    → trailer_get tm name ≡ some v
unfolding trailer_get
trailer_get-some [] name v h k = absurd (omega arith)
trailer_get-some (e ∷ es) name v h k = elim (Bool-cases (has_name name e)) [
  | inl hit ↦
      let h2 : 1 + count_of (has_name name) es ≤ 1 = rw hit at h in
      let k2 : 1 ≤ (if bytes_eq e.value v then 1 else 0) + count_of (holds name v) es =
        rw hit at k in
      let below = count_of-holds es name v in
      let same : bytes_eq e.value v ≡ true = ground arith in
      rw hit (ap some ((bytes_eq_iff e.value v).0 same))
  | inr miss ↦
      let h2 : 0 + count_of (has_name name) es ≤ 1 = rw miss at h in
      let k2 : 1 ≤ 0 + count_of (holds name v) es = rw miss at k in
      rw miss (trailer_get-some es name v (omega arith) (omega arith))
]

count_of_missing :
    (tm : Trailers) (name : Bytes) → trailer_get tm name ≡ none → count_of (has_name name) tm ≡ 0
unfolding trailer_get
count_of_missing [] name h = refl
count_of_missing (e ∷ es) name h = elim (Bool-cases (has_name name e)) [
  | inl hit ↦ let h2 : ◌≡◌ {A = Option Bytes} (some e.value) none = rw hit at h in absurd (cc h2)
  | inr miss ↦ rw miss (omega (arith, count_of_missing es name (rw miss at h)))
]

count_of_present :
    (tm : Trailers) (name v : Bytes) → trailer_get tm name ≡ some v → 1 ≤ count_of (holds name v) tm
unfolding trailer_get
count_of_present [] name v h = absurd (cc h)
count_of_present (e ∷ es) name v h = elim (Bool-cases (has_name name e)) [
  | inl hit ↦
      let h2 : ◌≡◌ {A = Option Bytes} (some e.value) (some v) = rw hit at h in
      let same : e.value ≡ v = cc h2 in
      let b = (bytes_eq_iff e.value v).1 same in rw hit (ground arith)
  | inr miss ↦ rw miss (omega (arith, count_of_present es name v (rw miss at h)))
]

-- A lookup of a name that occurs once at most depends on the numbers of the entries only.
trailer_get_same :
    (tm other : Trailers) (name : Bytes)
    → count_of (has_name name) tm ≤ 1
    → count_of (has_name name) other ≡ count_of (has_name name) tm
    → ((v : Bytes) → count_of (holds name v) other ≡ count_of (holds name v) tm)
    → trailer_get other name ≡ trailer_get tm name
trailer_get_same tm other name once same values = elim (Option-cases (trailer_get tm name)) [
  | inl missing ↦
      let zero_named = count_of_missing tm name missing in
      trailer_get-none other name (omega arith) ∙ sym missing
  | inr (v, found) ↦
      let one = count_of_present tm name v found in
      let e = values v in trailer_get-some other name v (omega arith) (omega arith) ∙ sym found
]

pub trailer_add_fits :
    (tm : Trailers) (name value : Bytes)
    → length tm < max_trailers
    → trailer_add true tm name value ≡ some (tm ++ record { name = name; value = value } ∷ [])
unfolding trailer_add
trailer_add_fits tm name value room =
    let test : leb max_trailers (length tm) ≡ false = ground arith in rw test refl

trailer_replace_adds :
    (tm : Trailers) (name value : Bytes)
    → length (trailer_remove tm name) < max_trailers
    → trailer_replace true tm name value
      ≡ trailer_remove tm name ++ record { name = name; value = value } ∷ []
unfolding trailer_replace
trailer_replace_adds tm name value room =
    rw (trailer_add_fits (trailer_remove tm name) name value room, trailer_replace) refl

-- Two texts that differ as names.
abbrev pub Differ : Bytes → Bytes → Type 0
Differ name k = (length name == length k && same_text name k) ≡ false

-- A replace of a trailer whose name occurs once at most, with room for an entry and memory for it,
-- gives the name the new value, and leaves every other name that occurs once at most its value.
pub trailer_get-trailer_replace :
    (tm : Trailers) (name value k : Bytes)
    → count_of (has_name name) tm ≤ 1
    → length (trailer_remove tm name) < max_trailers
    → Differ name k
    → count_of (has_name k) tm ≤ 1
    → (trailer_get (trailer_replace true tm name value) name ≡ some value)
      × (trailer_get (trailer_replace true tm name value) k ≡ trailer_get tm k)
trailer_get-trailer_replace tm name value k once room differ once_k =
    let new : TrailerEntry = record { name = name; value = value } in
    let left = trailer_remove tm name in
    let self : has_name name new ≡ true = let s = same_text_refl name in ground arith in
    let not_k : has_name k new ≡ false = has_name_apart name k new differ self in
    let gone = count_named-trailer_remove tm name once in
    let named = count_of-append (has_name name) left (new ∷ []) in
    let valued = count_of-append (holds name value) left (new ∷ []) in
    let same = bytes_eq_refl value in
    let self_holds : holds name value new ≡ true = ground arith in
    let one : count_of (has_name name) (left ++ new ∷ []) ≤ 1 = rw named (rw self (omega arith)) in
    let found : 1 ≤ count_of (holds name value) (left ++ new ∷ []) =
      rw valued (rw self_holds (omega arith)) in
    rw (trailer_replace_adds tm name value room) (
      trailer_get-some (left ++ new ∷ []) name value one found,
      trailer_get_same tm (left ++ new ∷ []) k once_k
          (count_of-append (has_name k) left (new ∷ [])
            ∙ rw not_k (
                omega (
                  arith,
                  count_of-trailer_remove (has_name k) tm name
                      (λ e h. has_name_apart name k e differ h),
                )))
          (λ v.
            count_of-append (holds k v) left (new ∷ [])
            ∙ rw not_k (
                omega (
                  arith,
                  count_of-trailer_remove (holds k v) tm name
                      (λ e h. let a = has_name_apart name k e differ h in ground arith),
                ))),
    )
