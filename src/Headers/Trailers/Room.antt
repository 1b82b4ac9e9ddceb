-- ===== src/Headers/Trailers/Room.antt =====
-- No operation gives a trailer map more entries than it has room for.
use mathlib.Core.Option.{some-injective}
use vmod_wasm.Base.{
  ◌≡◌, ◌≤◌, refl, ap, inl, inr, arith, Bool, [], ◌∷◌, ◌++◌, some, Option-cases, leb, Bool-cases,
  length, length-append, Bytes,
}
use vmod_wasm.Headers.Trailers.{
  TrailerEntry, Trailers, max_trailers, has_name, trailer_add, init_of, fill_gap, trailer_remove,
  trailer_replace,
}

length-init_of : (e : TrailerEntry) (es : Trailers) → length (init_of e es) ≡ length es
length-init_of e [] = refl
length-init_of e (f ∷ es) = omega (arith, length-init_of f es)

length-fill_gap : (es : Trailers) → length (fill_gap es) ≡ length es
length-fill_gap [] = refl
length-fill_gap (e ∷ es) = omega (arith, length-init_of e es)

pub length-trailer_remove :
    (tm : Trailers) (name : Bytes) → length (trailer_remove tm name) ≤ length tm
unfolding trailer_remove
length-trailer_remove [] name = omega arith
length-trailer_remove (e ∷ es) name = elim (Bool-cases (has_name name e)) [
  | inl hit ↦ rw hit (omega (arith, length-fill_gap es))
  | inr miss ↦ rw miss (omega (arith, length-trailer_remove es name))
]

pub trailer_add_room :
    (is_ok : Bool) (tm : Trailers) (name value : Bytes) (added : Trailers)
    → trailer_add is_ok tm name value ≡ some added
    → length added ≤ max_trailers
unfolding trailer_add
trailer_add_room is_ok tm name value added e = elim (Bool-cases (leb max_trailers (length tm))) [
  | inl full ↦ let no_entry = rw full at e in absurd (ground arith)
  | inr room ↦ elim (Bool-cases is_ok) [
    | inl ok ↦
        let both = rw (room, ok) at e in
        let same : length (tm ++ record { name = name; value = value } ∷ []) ≡ length added =
          ap length (some-injective _ _ both) in
        let l = length-append tm (record { name = name; value = value } ∷ []) in ground arith
    | inr failing ↦ let no_entry = rw (room, failing) at e in absurd (ground arith)
  ]
]

pub trailer_replace_room :
    (is_ok : Bool) (tm : Trailers) (name value : Bytes)
    → length tm ≤ max_trailers
    → length (trailer_replace is_ok tm name value) ≤ max_trailers
unfolding trailer_replace
trailer_replace_room is_ok tm name value h =
    elim (Option-cases (trailer_add is_ok (trailer_remove tm name) name value)) [
      | inl no_room ↦
          let l = length-trailer_remove tm name in rw (no_room, trailer_replace) (omega arith)
      | inr (added, e) ↦
          rw (e, trailer_replace)
            (trailer_add_room is_ok (trailer_remove tm name) name value added e)
    ]
