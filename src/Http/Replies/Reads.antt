-- ===== src/Http/Replies/Reads.antt =====
-- The read loops of pw_proxy_http_call in src/proxy_wasm_http.c: how much they read, that they end, and
-- where the headers end in what they have read.
use mathlib.Core.List.{append_assoc, append-nil}
use vmod_wasm.Base.{
  ℕ, zero, suc, ◌+◌, ◌-◌, ◌≤◌, ◌<◌, ◌≡◌, refl, sym, ap, ◌∙◌, ◌||◌, [], ◌∷◌, ◌++◌, Option, none,
  some, ltb, ◌==◌, if◌then◌else◌, length, length-append, Bytes, Bool-cases, inl, inr, arith,
}
use vmod_wasm.Http.Replies.{
  max_response, header_end, Head, Rest, Round, stopped, again, follow, seen_end, look_for_end,
  head_round, read_head, add_body, body_round, read_body,
}

-- A read gives no more bytes than it may.
abbrev pub IsBounded : {S : Type 0} → (ℕ → S → Bytes × S) → Type 0
IsBounded {S} read_some = (n : ℕ) (s : S) → length (read_some n s).0 ≤ n

-- A property of what a round leaves the loop with, or of what it goes on with.
abbrev pub Leaves : {S A : Type 0} → (A → Type 0) → (Bytes → S → Type 0) → Round S A → Type 0
Leaves P Q (stopped a) = P a
Leaves P Q (again buf s) = Q buf s

pub follow-Leaves :
    {S A : Type 0} (P : A → Type 0) (Q : Bytes → S → Type 0) (r : Round S A) (f : Bytes → S → A)
    → Leaves P Q r
    → ((buf : Bytes) (s : S) → Q buf s → P (f buf s))
    → P (follow r f)
follow-Leaves P Q (stopped a) f h g = h
follow-Leaves P Q (again buf s) f h g = g buf s h

same-follow :
    {S A : Type 0} (P : A → Type 0) (Q : Bytes → S → Type 0) (r : Round S A) (f f' : Bytes → S → A)
    → Leaves P Q r
    → ((buf : Bytes) (s : S) → Q buf s → f buf s ≡ f' buf s)
    → follow r f ≡ follow r f'
same-follow P Q (stopped a) f f' h g = refl
same-follow P Q (again buf s) f f' h g = g buf s h

-- What the first loop leaves is within the bound, and its headers end where it says.
abbrev pub GoodHead : {S : Type 0} → Head S → Type 0
GoodHead h =
    (length h.received ≤ max_response)
    × ((n : ℕ) → h.ends_at ≡ some n → header_end h.received ≡ some n)

abbrev Grown : {S : Type 0} → Bytes → Bytes → S → Type 0
Grown buf buf' s = (length buf < length buf') × (length buf' ≤ max_response)

-- What the second loop leaves: the bytes that it has read are the ones that were needed, as far as it got.
abbrev pub GoodRest : {S : Type 0} → ℕ → Bytes → Rest S → Type 0
GoodRest need buf r =
    (x : Bytes) × (r.received ≡ buf ++ x)
    × (length x + r.body_need ≡ need)
    × (length r.received ≤ max_response)

abbrev Needed : {S : Type 0} → ℕ → Bytes → Bytes → S → Type 0
Needed need buf buf' s =
    (x : Bytes) × (buf' ≡ buf ++ x)
    × (0 < length x)
    × (length x ≤ need)
    × (length buf' ≤ max_response)

module _ {S : Type 0} (read_some : ℕ → S → Bytes × S) (bounded : IsBounded read_some) where
  seen_end-Leaves :
      (o : Option ℕ) (buf buf' : Bytes) (s : S)
      → header_end buf' ≡ o
      → length buf < length buf'
      → length buf' ≤ max_response
      → Leaves GoodHead (Grown buf) (seen_end o buf' s)
  seen_end-Leaves none buf buf' s e h h' = (h, h')
  seen_end-Leaves (some n) buf buf' s e h h' = (h', λ m e'. e ∙ e')

  look_for_end-Leaves :
      (buf : Bytes) (got : Bytes × S)
      → length buf < max_response
      → length got.0 ≤ max_response - length buf
      → Leaves GoodHead (Grown buf) (look_for_end buf got)
  look_for_end-Leaves buf ([], s) h h' = (ground arith, λ n e. cc e)
  look_for_end-Leaves buf (c ∷ cs, s) h h' =
      let l = length-append buf (c ∷ cs) in
      seen_end-Leaves _ buf (buf ++ (c ∷ cs)) s refl (omega (arith, l)) (omega (arith, l, h'))

  head_round-Leaves :
      (buf : Bytes) (s : S)
      → length buf ≤ max_response
      → Leaves GoodHead (Grown buf) (head_round read_some buf s)
  head_round-Leaves buf s h = elim (Bool-cases (ltb (length buf) max_response)) [
    | inl e ↦ rw e (
        look_for_end-Leaves buf (read_some (max_response - length buf) s) (ground arith)
          (bounded _ s))
    | inr e ↦ rw e (h, λ n e'. cc e')
  ]

  pub read_head-GoodHead :
      (fuel : ℕ) (buf : Bytes) (s : S)
      → length buf ≤ max_response
      → GoodHead (read_head read_some fuel buf s)
  unfolding read_head
  read_head-GoodHead zero buf s h = (h, λ n e. cc e)
  read_head-GoodHead (suc fuel) buf s h =
      follow-Leaves GoodHead (Grown buf) (head_round read_some buf s)
        (λ buf' s'. read_head read_some fuel buf' s') (head_round-Leaves buf s h)
        λ buf' s' g. read_head-GoodHead fuel buf' s' g.1

  head_round-full :
      (buf : Bytes) (s : S)
      → max_response ≤ length buf
      → head_round read_some buf s ≡ stopped (record { ends_at = none; received = buf; socket = s })
  head_round-full buf s h = elim (Bool-cases (ltb (length buf) max_response)) [
    | inl e ↦ absurd (ground arith)
    | inr e ↦ rw e refl
  ]

  -- The first loop ends within a round for each byte that the buffer has room for: with as many rounds or
  -- more, however many, it leaves the same.
  pub read_head_ends :
      (fuel fuel' : ℕ) (buf : Bytes) (s : S)
      → length buf ≤ max_response
      → max_response - length buf ≤ fuel
      → max_response - length buf ≤ fuel'
      → read_head read_some fuel buf s ≡ read_head read_some fuel' buf s
  unfolding read_head
  read_head_ends zero zero buf s h f f' = refl
  read_head_ends zero (suc fuel') buf s h f f' = rw (head_round-full buf s (omega (arith, f))) refl
  read_head_ends (suc fuel) zero buf s h f f' = rw (head_round-full buf s (omega (arith, f'))) refl
  read_head_ends (suc fuel) (suc fuel') buf s h f f' =
      same-follow GoodHead (Grown buf) (head_round read_some buf s) _ _ (head_round-Leaves buf s h)
        λ buf' s' g.
          read_head_ends fuel fuel' buf' s' g.1 (omega (arith, g, f)) (omega (arith, g, f'))

  add_body-Leaves :
      (need most : ℕ) (buf : Bytes) (got : Bytes × S)
      → length got.0 ≤ most
      → most ≤ need
      → most + length buf ≤ max_response
      → Leaves (GoodRest need buf) (Needed need buf) (add_body need buf got)
  add_body-Leaves need most buf ([], s) h h' h'' =
      ([], sym (append-nil buf), ground arith, omega (arith, h''))
  add_body-Leaves need most buf (c ∷ cs, s) h h' h'' =
      let l = length-append buf (c ∷ cs) in
      (c ∷ cs, refl, omega arith, omega (arith, h, h'), omega (arith, l, h, h''))

  body_round-Leaves :
      (need : ℕ) (buf : Bytes) (s : S)
      → length buf ≤ max_response
      → Leaves (GoodRest need buf) (Needed need buf) (body_round read_some need buf s)
  body_round-Leaves need buf s h =
      let room = max_response - length buf in
      elim (Bool-cases (need == 0 || room == 0)) [
        | inl e ↦ rw e ([], sym (append-nil buf), ground arith, h)
        | inr e ↦ rw e (
            add_body-Leaves need (if ltb need room then need else room) buf
              (read_some (if ltb need room then need else room) s) (bounded _ s) (ground arith)
              (ground arith))
      ]

  GoodRest-Needed :
      (need : ℕ) (buf buf' : Bytes) (r : Rest S) (s : S)
      → Needed need buf buf' s
      → GoodRest (need - (length buf' - length buf)) buf' r
      → GoodRest need buf r
  GoodRest-Needed need buf buf' r s (x, e, h, h', k) (y, e', n, m) =
      let l = length-append buf x in
      (
        x ++ y,
        e' ∙ (ap (λ b. b ++ y) e ∙ append_assoc buf x y),
        omega (arith, l, length-append x y, ap length e, h', n),
        m,
      )

  -- The second loop reads bytes that are needed, as many as it gets, and never more than there is room for.
  pub read_body-GoodRest :
      (fuel need : ℕ) (buf : Bytes) (s : S)
      → length buf ≤ max_response
      → GoodRest need buf (read_body read_some fuel need buf s)
  unfolding read_body
  read_body-GoodRest zero need buf s h = ([], sym (append-nil buf), ground arith, h)
  read_body-GoodRest (suc fuel) need buf s h =
      follow-Leaves (GoodRest need buf) (Needed need buf) (body_round read_some need buf s)
        (λ buf' s'. read_body read_some fuel (need - (length buf' - length buf)) buf' s')
        (body_round-Leaves need buf s h)
        λ buf' s' g.
          GoodRest-Needed need buf buf'
            (read_body read_some fuel (need - (length buf' - length buf)) buf' s') s' g
            (read_body-GoodRest fuel (need - (length buf' - length buf)) buf' s' g.4)

  -- The second loop ends within a round for each byte that is needed.
  pub read_body_ends :
      (fuel fuel' need : ℕ) (buf : Bytes) (s : S)
      → length buf ≤ max_response
      → need ≤ fuel
      → need ≤ fuel'
      → read_body read_some fuel need buf s ≡ read_body read_some fuel' need buf s
  unfolding read_body
  read_body_ends zero zero need buf s h f f' = refl
  read_body_ends zero (suc fuel') zero buf s h f f' = refl
  read_body_ends (suc fuel) zero zero buf s h f f' = refl
  read_body_ends zero (suc fuel') (suc need) buf s h f f' = absurd (ground arith)
  read_body_ends (suc fuel) zero (suc need) buf s h f f' = absurd (ground arith)
  read_body_ends (suc fuel) (suc fuel') need buf s h f f' =
      same-follow (GoodRest need buf) (Needed need buf) (body_round read_some need buf s) _ _
        (body_round-Leaves need buf s h)
        λ buf' s' g.
          let l = ap length g.1 ∙ length-append buf g.0 in
          read_body_ends fuel fuel' (need - (length buf' - length buf)) buf' s' g.4
            (omega (arith, l, g.2, f)) (omega (arith, l, g.2, f'))
