-- ===== src/Headers/Response/Lines.antt =====
-- The test that finds a header's line, against the split of the line at its first colon.
use vmod_wasm.Base.{
  ℕ, suc, ◌+◌, ◌≡◌, ◌≢◌, ◌<◌, refl, sym, ap, ◌∙◌, inl, inr, arith, Bool, true, false, ◌&&◌, List,
  [], ◌∷◌, ◌++◌, Option, none, some, ◌==◌, if◌then◌else◌, Bool-cases, Option-cases, length,
  length-append, drop, Bytes,
}
use vmod_wasm.Headers.Trailers.{lower, same_text}
use vmod_wasm.Headers.Maps.{has_prefix}
use vmod_wasm.Headers.Response.{starts_with, is_line_of}
use vmod_wasm.Http.Upstream.{split_at}

-- The name of a header: neither a colon nor a NUL.
abbrev pub IsKey : Bytes → Type 0
IsKey [] = Unit {0}
IsKey (c ∷ key) = (c ≢ b':') × (c ≢ 0) × IsKey key

-- What the test of a line comes to, for the split of the line at its first colon.
abbrev pub names_key : Bytes → Option (Bytes × Bytes) → Bool
names_key key none = false
names_key key (some (k, v)) = length k == length key && same_text key k

colon_behind : Bytes → Bytes → Bool
colon_behind key l = has_prefix key l && starts_with b':' (drop (length key) l)

-- No byte of a key is taken for a colon or for a NUL.
pub lower_colon : (c : ℕ) → c ≢ b':' → (lower c == lower b':') ≡ false
lower_colon c h = ground arith

lower_apart : (c x : ℕ) → x ≡ b':' → c ≢ b':' → (lower c == lower x) ≡ false
lower_apart c x e h = rw e (lower_colon c h)

split_at-here : (x : ℕ) (l : Bytes) → x ≡ b':' → split_at b':' (x ∷ l) ≡ some ([], l)
unfolding split_at
split_at-here x l e = let t : (x == b':') ≡ true = ground arith in rw t refl

abbrev put_back : ℕ → Option (Bytes × Bytes) → Option (Bytes × Bytes)
put_back x none = none
put_back x (some (before, after)) = some (x ∷ before, after)

split_at-there :
    (x : ℕ) (l : Bytes) → x ≢ b':' → split_at b':' (x ∷ l) ≡ put_back x (split_at b':' l)
unfolding split_at
split_at-there x l h =
    let t : (x == b':') ≡ false = ground arith in
    rw t (elim (Option-cases (split_at b':' l)) [ inl e ↦ rw e refl | inr (a, e) ↦ rw e refl ])

names_key-put_back :
    (c x : ℕ) (key : Bytes) (o : Option (Bytes × Bytes))
    → c ≢ 0
    → (lower c == lower x) ≡ true
    → names_key (c ∷ key) (put_back x o) ≡ names_key key o
unfolding same_text
names_key-put_back c x key none h e = refl
names_key-put_back c x key (some (k, v)) h e =
    let z : (c == 0) ≡ false = ground arith in rw (e, z) (ground arith)

names_key-apart :
    (c x : ℕ) (key : Bytes) (o : Option (Bytes × Bytes))
    → (lower c == lower x) ≡ false
    → names_key (c ∷ key) (put_back x o) ≡ false
unfolding same_text
names_key-apart c x key none e = refl
names_key-apart c x key (some (k, v)) e = rw e (ground arith)

colon_behind-step :
    (c x : ℕ) (key l : Bytes)
    → c ≢ 0
    → (lower c == lower x) ≡ true
    → colon_behind (c ∷ key) (x ∷ l) ≡ colon_behind key l
unfolding colon_behind same_text
colon_behind-step c x key l h e =
    let z : (c == 0) ≡ false = ground arith in rw (e, z) (ground arith)

colon_behind-apart :
    (c x : ℕ) (key l : Bytes)
    → (lower c == lower x) ≡ false
    → colon_behind (c ∷ key) (x ∷ l) ≡ false
unfolding colon_behind same_text
colon_behind-apart c x key l e = rw e (ground arith)

names_key-empty : (x : ℕ) (o : Option (Bytes × Bytes)) → names_key [] (put_back x o) ≡ false
names_key-empty x none = refl
names_key-empty x (some (k, v)) = ground arith

colon_behind_lem :
    (key l : Bytes) → IsKey key → colon_behind key l ≡ names_key key (split_at b':' l)
unfolding colon_behind same_text split_at
colon_behind_lem [] [] h = ground arith
colon_behind_lem [] (x ∷ l) h = elim (Bool-cases (x == b':')) [
  | inl e ↦
      let t : colon_behind [] (x ∷ l) ≡ true = ground arith in
      t ∙ ap (names_key []) (sym (split_at-here x l (ground arith)))
  | inr e ↦
      let t : colon_behind [] (x ∷ l) ≡ false = ground arith in
      t
      ∙ (sym (names_key-empty x (split_at b':' l))
          ∙ ap (names_key []) (sym (split_at-there x l (ground arith))))
]
colon_behind_lem (c ∷ key) [] h = ground arith
colon_behind_lem (c ∷ key) (x ∷ l) (h, h0, hs) = elim (Bool-cases (lower c == lower x)) [
  | inl same ↦ elim (Bool-cases (x == b':')) [
    | inl e ↦ let apart = lower_apart c x (ground arith) h in absurd (ground arith)
    | inr e ↦
        colon_behind-step c x key l h0 same
        ∙ (colon_behind_lem key l hs
            ∙ (sym (names_key-put_back c x key (split_at b':' l) h0 same)
                ∙ ap (names_key (c ∷ key)) (sym (split_at-there x l (ground arith)))))
  ]
  | inr apart ↦ elim (Bool-cases (x == b':')) [
    | inl e ↦
        let other : names_key (c ∷ key) (some ([], l)) ≡ false = ground arith in
        colon_behind-apart c x key l apart
        ∙ (sym other ∙ ap (names_key (c ∷ key)) (sym (split_at-here x l (ground arith))))
    | inr e ↦
        colon_behind-apart c x key l apart
        ∙ (sym (names_key-apart c x key (split_at b':' l) apart)
            ∙ ap (names_key (c ∷ key)) (sym (split_at-there x l (ground arith))))
  ]
]

abbrev joined : Option (Bytes × Bytes) → Bytes
joined none = []
joined (some (k, v)) = k ++ (b':' ∷ v)

split_at_eq : (l k v : Bytes) → split_at b':' l ≡ some (k, v) → l ≡ k ++ (b':' ∷ v)
unfolding split_at
split_at_eq [] k v e = absurd (ground arith)
split_at_eq (x ∷ l) k v e = elim (Bool-cases (x == b':')) [
  | inl here ↦
      let colon : x ≡ b':' = ground arith in
      ap (◌∷◌ x) refl ∙ (rw colon refl ∙ ap joined (sym (split_at-here x l colon) ∙ e))
  | inr there ↦
      let e2 = sym (split_at-there x l (ground arith)) ∙ e in
      elim (Option-cases (split_at b':' l)) [
        | inl none_there ↦ let e3 = rw none_there at e2 in absurd (ground arith)
        | inr ((k2, v2), found) ↦
            let e3 = rw found at e2 in ap (◌∷◌ x) (split_at_eq l k2 v2 found) ∙ ap joined e3
      ]
]

drop-append : (k v : Bytes) (c : ℕ) → drop (suc (length k)) (k ++ (c ∷ v)) ≡ v
drop-append [] v c = refl
drop-append (x ∷ k) v c = drop-append k v c

-- Behind the colon of a line that has one, there is more.
abbrev IsFilled : Option (Bytes × Bytes) → Type 0
IsFilled none = Unit {0}
IsFilled (some (k, v)) = 0 < length v

abbrev pub AllFilled : List Bytes → Type 0
AllFilled [] = Unit {0}
AllFilled (l ∷ ls) = IsFilled (split_at b':' l) × AllFilled ls

-- The lines before the first empty one.
abbrev pub header_part : List Bytes → List Bytes
header_part [] = []
header_part (l ∷ ls) = let rest = header_part ls in if length l == 0 then [] else l ∷ rest

pub is_line_of-none :
    (key l : Bytes) → IsKey key → split_at b':' l ≡ none → is_line_of key l ≡ false
unfolding is_line_of colon_behind
is_line_of-none key l h e =
    let other : colon_behind key l ≡ false = colon_behind_lem key l h ∙ rw e refl in ground arith

pub is_line_of-some :
    (key l k v : Bytes)
    → IsKey key
    → split_at b':' l ≡ some (k, v)
    → 0 < length v
    → is_line_of key l ≡ names_key key (some (k, v))
unfolding is_line_of colon_behind
is_line_of-some key l k v h e filled =
    let same : colon_behind key l ≡ names_key key (some (k, v)) =
      colon_behind_lem key l h ∙ rw e refl in
    let n : length l ≡ length k + suc (length v) =
      rw (split_at_eq l k v e) (length-append k (b':' ∷ v)) in
    ground arith

pub line_value :
    (key l k v : Bytes)
    → split_at b':' l ≡ some (k, v)
    → length k ≡ length key
    → drop (length key + 1) l ≡ v
line_value key l k v e n =
    let m : length key + 1 ≡ suc (length k) = omega arith in
    rw (m, split_at_eq l k v e) (drop-append k v b':')
