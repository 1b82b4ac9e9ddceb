-- ===== src/Http/Values/Tokens.antt =====
-- The loop over the tokens of a value, against the items between the commas.
use vmod_wasm.Base.{
  ℕ, zero, suc, ◌-◌, ◌≡◌, ◌≤◌, ◌<◌, refl, sym, ap, ◌∙◌, inl, inr, arith, Bool, true, false, ◌||◌,
  List, [], ◌∷◌, some, ◌==◌, if◌then◌else◌, Bool-cases, length, Bytes,
}
use vmod_wasm.Http.Numbers.{is_blank, skip_blanks}
use vmod_wasm.Http.Values.{
  trim_end, is_separator, skip_separators, take_field, is_token, token_loop, value_has_token,
}

abbrev put_first : ℕ → List Bytes → List Bytes
put_first c [] = (c ∷ []) ∷ []
put_first c (item ∷ items) = (c ∷ item) ∷ items

-- The texts between the commas of a value.
pub items_of : Bytes → List Bytes
items_of [] = [] ∷ []
items_of (c ∷ cs) = let rest = items_of cs in if c == b',' then [] ∷ rest else put_first c rest

-- One of the items is the token, up to case and to blanks around it.
pub any_token : Bytes → List Bytes → Bool
any_token token [] = false
any_token token (item ∷ items) =
    is_token token (trim_end (skip_blanks item)) || any_token token items

abbrev items_behind : Bytes → List Bytes
items_behind [] = []
items_behind (c ∷ cs) = items_of cs

items_of-take_field : (s : Bytes) → items_of s ≡ (take_field s).0 ∷ items_behind (take_field s).1
unfolding items_of take_field
items_of-take_field [] = refl
items_of-take_field (c ∷ s) = elim (Bool-cases (c == b',')) [
  | inl comma ↦ rw comma refl
  | inr other ↦ rw (other, items_of-take_field s) refl
]

length-take_field : (s : Bytes) → length (take_field s).1 ≤ length s
unfolding take_field
length-take_field [] = omega arith
length-take_field (c ∷ s) = elim (Bool-cases (c == b',')) [
  | inl comma ↦ rw comma (omega arith)
  | inr other ↦ let ih = length-take_field s in rw other (omega arith)
]

-- Each round leaves less of the value.
length-round : (s : Bytes) → length (take_field (skip_separators s)).1 ≤ length s - 1
unfolding take_field skip_separators
length-round [] = omega arith
length-round (c ∷ s) = elim (Bool-cases (is_separator c)) [
  | inl sep ↦ let ih = length-round s in rw sep (omega arith)
  | inr other ↦
      let no_comma : (c == b',') ≡ false = ground arith in
      let ih = length-take_field s in rw (other, no_comma) (omega arith)
]

skip_blanks-field :
    (s : Bytes)
    → skip_blanks (take_field (skip_separators s)).0 ≡ (take_field (skip_separators s)).0
unfolding take_field skip_separators skip_blanks
skip_blanks-field [] = refl
skip_blanks-field (c ∷ s) = elim (Bool-cases (is_separator c)) [
  | inl sep ↦ rw sep (skip_blanks-field s)
  | inr other ↦
      let no_comma : (c == b',') ≡ false = ground arith in
      let no_blank : is_blank c ≡ false = ground arith in rw (other, no_comma, no_blank) refl
]

module _ (token : Bytes) (some_token : 0 < length token) where
  not_token : is_token token [] ≡ false
  not_token = ground arith

  any_token-empty : any_token token (items_of []) ≡ false
  unfolding any_token items_of skip_blanks trim_end
  any_token-empty = rw not_token refl

  any_token-comma : (s : Bytes) → any_token token ([] ∷ items_of s) ≡ any_token token (items_of s)
  unfolding any_token skip_blanks trim_end
  any_token-comma s = rw not_token refl

  any_token-blank :
      (c : ℕ) (items : List Bytes)
      → is_blank c ≡ true
      → any_token token (put_first c items) ≡ any_token token items
  unfolding any_token skip_blanks trim_end
  any_token-blank c [] blank = rw (blank, not_token) refl
  any_token-blank c (item ∷ items) blank = rw blank refl

  -- Neither blanks nor commas before an item matter.
  any_token-skip_separators :
      (s : Bytes) → any_token token (items_of (skip_separators s)) ≡ any_token token (items_of s)
  unfolding skip_separators items_of
  any_token-skip_separators [] = refl
  any_token-skip_separators (c ∷ s) = elim (Bool-cases (is_separator c)) [
    | inr other ↦ rw other refl
    | inl sep ↦ elim (Bool-cases (c == b',')) [
      | inl comma ↦ rw (sep, comma) (any_token-skip_separators s ∙ sym (any_token-comma s))
      | inr no_comma ↦
          let blank : is_blank c ≡ true = ground arith in
          rw (sep, no_comma)
            (any_token-skip_separators s ∙ sym (any_token-blank c (items_of s) blank))
    ]
  ]

  -- What is behind an item starts with a comma, or is empty.
  any_token-behind :
      (s : Bytes)
      → any_token token (items_behind (take_field s).1)
        ≡ any_token token (items_of (take_field s).1)
  unfolding take_field items_of any_token
  any_token-behind [] = sym any_token-empty
  any_token-behind (c ∷ s) = elim (Bool-cases (c == b',')) [
    | inl comma ↦ let t = any_token-comma s in rw (comma, comma) (sym t)
    | inr other ↦ rw other (any_token-behind s)
  ]

  any_token-round :
      (s : Bytes)
      → any_token token (items_of s) ≡ (
          is_token token (trim_end (take_field (skip_separators s)).0)
          || any_token token (items_of (take_field (skip_separators s)).1))
  unfolding any_token
  any_token-round s =
      let t = skip_separators s in
      sym (any_token-skip_separators s)
      ∙ (ap (any_token token) (items_of-take_field t)
          ∙ rw (skip_blanks-field s, any_token-behind t) refl)

  token_loop_lem :
      (fuel : ℕ) (s : Bytes)
      → length s < fuel
      → token_loop fuel s token ≡ some (any_token token (items_of s))
  unfolding token_loop
  token_loop_lem zero s h = absurd (omega arith)
  token_loop_lem (suc fuel) [] h = ap some (sym any_token-empty)
  token_loop_lem (suc fuel) (c ∷ s) h =
      let next = take_field (skip_separators (c ∷ s)) in
      let l = length-round (c ∷ s) in
      let ih = token_loop_lem fuel next.1 (omega arith) in
      elim (Bool-cases (is_token token (trim_end next.0))) [
        | inl hit ↦ rw (any_token-round (c ∷ s), hit) refl
        | inr miss ↦ rw (any_token-round (c ∷ s), miss, ih) refl
      ]

-- The search for a token that is not empty ends: no value makes it go round more often than the value
-- has bytes and once more. It answers whether one of the items between the commas of the value is the
-- token, up to case and to the blanks around the item.
pub value_has_token-any_token :
    (value token : Bytes)
    → 0 < length token
    → value_has_token value token ≡ some (any_token token (items_of value))
unfolding value_has_token
value_has_token-any_token value token some_token =
    token_loop_lem token some_token (suc (length value)) value (omega arith)
