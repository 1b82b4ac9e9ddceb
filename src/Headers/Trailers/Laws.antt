-- ===== src/Headers/Trailers/Laws.antt =====
-- What the trailer maps hold after an add, a remove and a replace.
use mathlib.Core.List.{Perm}
use mathlib.Core.List.Perm
use vmod_wasm.Base.{
  ℕ, ◌+◌, ◌≡◌, ◌≤◌, refl, ap, inl, inr, arith, Bool, true, false, [], ◌∷◌, ◌++◌, Option, none, some,
  if◌then◌else◌, Bool-cases, Bytes,
}
use vmod_wasm.Headers.Trailers.{
  TrailerEntry, Trailers, same_text, has_name, last_of, init_of, fill_gap, trailer_remove,
}

pub same_text_refl : (a : Bytes) → same_text a a ≡ true
unfolding same_text
same_text_refl [] = refl
same_text_refl (x ∷ a) = ground (arith, same_text_refl a)

last_of-Perm : (e : TrailerEntry) (es : Trailers) → Perm (last_of e es ∷ init_of e es) (e ∷ es)
last_of-Perm e [] = Perm.refl (e ∷ [])
last_of-Perm e (f ∷ es) =
    Perm.trans (Perm.swap e (last_of f es) (init_of f es)) (Perm.cons e (last_of-Perm f es))

fill_gap-Perm : (es : Trailers) → Perm (fill_gap es) es
fill_gap-Perm [] = Perm.refl []
fill_gap-Perm (e ∷ es) = last_of-Perm e es

-- The first entry with the name.
pub first_named : Trailers → Bytes → Option TrailerEntry
first_named [] name = none
first_named (e ∷ es) name = if has_name name e then some e else first_named es name

abbrev pub IsRemoved : Option TrailerEntry → Trailers → Trailers → Type 0
IsRemoved none tm left = left ≡ tm
IsRemoved (some e) tm left = Perm (e ∷ left) tm

IsRemoved-cons :
    (e : TrailerEntry) (o : Option TrailerEntry) (tm left : Trailers)
    → IsRemoved o tm left
    → IsRemoved o (e ∷ tm) (e ∷ left)
IsRemoved-cons e none tm left h = ap (◌∷◌ e) h
IsRemoved-cons e (some f) tm left h = Perm.trans (Perm.swap e f left) (Perm.cons e h)

-- A remove takes the first entry with the name out of the map, if there is one, and keeps all the
-- others, in whatever order; if there is none the map stays as it is.
pub trailer_remove-IsRemoved :
    (tm : Trailers) (name : Bytes) → IsRemoved (first_named tm name) tm (trailer_remove tm name)
unfolding first_named trailer_remove
trailer_remove-IsRemoved [] name = refl
trailer_remove-IsRemoved (e ∷ es) name = elim (Bool-cases (has_name name e)) [
  | inl hit ↦ rw hit (Perm.cons e (fill_gap-Perm es))
  | inr miss ↦ rw miss (
      IsRemoved-cons e (first_named es name) es (trailer_remove es name)
        (trailer_remove-IsRemoved es name))
]

-- How many entries pass a test.
abbrev pub count_of : (TrailerEntry → Bool) → Trailers → ℕ
count_of p [] = 0
count_of p (e ∷ es) = (if p e then 1 else 0) + count_of p es

count_of-last_of :
    (p : TrailerEntry → Bool) (e : TrailerEntry) (es : Trailers)
    → count_of p (last_of e es ∷ init_of e es) ≡ count_of p (e ∷ es)
count_of-last_of p e [] = refl
count_of-last_of p e (f ∷ es) = omega (arith, count_of-last_of p f es)

pub count_of-fill_gap :
    (p : TrailerEntry → Bool) (es : Trailers) → count_of p (fill_gap es) ≡ count_of p es
count_of-fill_gap p [] = refl
count_of-fill_gap p (e ∷ es) = count_of-last_of p e es

pub count_of-append :
    (p : TrailerEntry → Bool) (es fs : Trailers)
    → count_of p (es ++ fs) ≡ count_of p es + count_of p fs
count_of-append p [] fs = omega arith
count_of-append p (e ∷ es) fs = omega (arith, count_of-append p es fs)

-- Entries of which none has the name are all kept.
pub count_of-trailer_remove :
    (p : TrailerEntry → Bool) (tm : Trailers) (name : Bytes)
    → ((e : TrailerEntry) → has_name name e ≡ true → p e ≡ false)
    → count_of p (trailer_remove tm name) ≡ count_of p tm
unfolding trailer_remove
count_of-trailer_remove p [] name h = refl
count_of-trailer_remove p (e ∷ es) name h = elim (Bool-cases (has_name name e)) [
  | inl hit ↦ let q = h e hit in rw (hit, q) (omega (arith, count_of-fill_gap p es))
  | inr miss ↦ rw miss (omega (arith, count_of-trailer_remove p es name h))
]

-- Where the name occurs once at most, none is left.
pub count_named-trailer_remove :
    (tm : Trailers) (name : Bytes)
    → count_of (has_name name) tm ≤ 1
    → count_of (has_name name) (trailer_remove tm name) ≡ 0
unfolding trailer_remove
count_named-trailer_remove [] name h = refl
count_named-trailer_remove (e ∷ es) name h = elim (Bool-cases (has_name name e)) [
  | inl hit ↦
      let h2 : 1 + count_of (has_name name) es ≤ 1 = rw hit at h in
      rw hit (omega (arith, count_of-fill_gap (has_name name) es))
  | inr miss ↦
      let h2 : 0 + count_of (has_name name) es ≤ 1 = rw miss at h in
      rw (miss, miss) (omega (arith, count_named-trailer_remove es name (omega arith)))
]
