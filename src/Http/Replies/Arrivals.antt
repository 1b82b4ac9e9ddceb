-- ===== src/Http/Replies/Arrivals.antt =====
-- How the headers of a response arrive in pw_proxy_http_call of src/proxy_wasm_http.c, from a socket that
-- holds the response.
use mathlib.Core.List.{append_assoc, append-nil}
use mathlib.Core.Option.{some-injective}
use vmod_wasm.Base.{
  ℕ, zero, suc, ◌-◌, ◌≤◌, ◌<◌, ◌≡◌, refl, sym, ap, ◌∙◌, inl, inr, [], ◌∷◌, ◌++◌, Option, none, some,
  ltb, length, length-append, Bytes, Bool-cases, arith,
}
use vmod_wasm.Http.Replies.{
  max_response, header_end, Head, follow, seen_end, look_for_end, head_round, read_head,
}
use vmod_wasm.Http.Replies.Ends.{header_end-append}

-- A socket that holds bytes gives some of them to each read, from the front, and holds the rest then.
abbrev pub Delivers : {S : Type 0} → (ℕ → S → Bytes × S) → (S → Bytes → Type 0) → Type 0
Delivers {S} read_some Holds =
    (n : ℕ) (s : S) (b : Bytes)
    → Holds s b
    → 0 < n
    → 0 < length b
    → (c rest : Bytes) × (s' : S) × (read_some n s ≡ (c, s'))
      × (b ≡ c ++ rest)
      × (0 < length c)
      × (length c ≤ n)
      × Holds s' rest

module _ {S : Type 0} (read_some : ℕ → S → Bytes × S) (Holds : S → Bytes → Type 0)
    (delivers : Delivers read_some Holds) where
  look_for_end_nonempty :
      (buf c : Bytes) (s : S)
      → 0 < length c
      → look_for_end buf (c, s) ≡ seen_end (header_end (buf ++ c)) (buf ++ c) s
  look_for_end_nonempty buf [] s h = absurd (ground arith)
  look_for_end_nonempty buf (c ∷ cs) s h = refl

  head_round_delivered :
      (buf c : Bytes) (s s' : S)
      → length buf < max_response
      → read_some (max_response - length buf) s ≡ (c, s')
      → 0 < length c
      → head_round read_some buf s ≡ seen_end (header_end (buf ++ c)) (buf ++ c) s'
  head_round_delivered buf c s s' h e h' = elim (Bool-cases (ltb (length buf) max_response)) [
    | inl z ↦ rw z (ap (look_for_end buf) e ∙ look_for_end_nonempty buf c s' h')
    | inr z ↦ absurd (ground arith)
  ]

  -- What the first loop leaves of a stream.
  abbrev pub FoundHead : ℕ → Bytes → Head S → Type 0
  FoundHead n whole head =
      (p q : Bytes) × (s' : S) × (head ≡ record { ends_at = some n; received = p; socket = s' })
      × (p ++ q ≡ whole)
      × (header_end p ≡ some n)
      × Holds s' q

  follow_seen :
      (o : Option ℕ) (n : ℕ) (p q : Bytes) (s' : S) (f : Bytes → S → Head S)
      → header_end p ≡ o
      → header_end (p ++ q) ≡ some n
      → Holds s' q
      → (header_end p ≡ none → FoundHead n (p ++ q) (f p s'))
      → FoundHead n (p ++ q) (follow (seen_end o p s') f)
  follow_seen none n p q s' f e e' h g = g e
  follow_seen (some m) n p q s' f e e' h g =
      let k = some-injective _ _ (sym (header_end-append p q e) ∙ e') in
      (
        p,
        q,
        s',
        ap (λ i. record { ends_at = some i; received = p; socket = s' }) k,
        refl,
        e ∙ ap some k,
        h,
      )

  read_head_step :
      (fuel : ℕ) (buf c rest : Bytes) (s s' : S) (n : ℕ)
      → length buf < max_response
      → read_some (max_response - length buf) s ≡ (c, s')
      → 0 < length c
      → Holds s' rest
      → header_end ((buf ++ c) ++ rest) ≡ some n
      → (header_end (buf ++ c) ≡ none
          → FoundHead n ((buf ++ c) ++ rest) (read_head read_some fuel (buf ++ c) s'))
      → FoundHead n ((buf ++ c) ++ rest) (read_head read_some (suc fuel) buf s)
  unfolding read_head
  read_head_step fuel buf c rest s s' n h er c0 H e g =
      rw (head_round_delivered buf c s s' h er c0) (
        follow_seen (header_end (buf ++ c)) n (buf ++ c) rest s'
          (λ b t. read_head read_some fuel b t) refl e H g)

  -- The first loop stops with the end of the headers, and the socket still holds what is behind.
  pub read_head_delivered :
      (fuel : ℕ) (buf rest : Bytes) (s : S) (n : ℕ)
      → Holds s rest
      → header_end buf ≡ none
      → header_end (buf ++ rest) ≡ some n
      → length (buf ++ rest) ≤ max_response
      → length rest ≤ fuel
      → FoundHead n (buf ++ rest) (read_head read_some fuel buf s)
  read_head_delivered fuel buf [] s n H e e' h f =
      cc (sym e ∙ (ap header_end (sym (append-nil buf)) ∙ e'))
  read_head_delivered zero buf (r ∷ rs) s n H e e' h f = absurd (ground arith)
  read_head_delivered (suc fuel) buf (r ∷ rs) s n H e e' h f =
      let l = length-append buf (r ∷ rs) in
      let (c, rest, s', er, eb, c0, cn, H') =
        delivers (max_response - length buf) s (r ∷ rs) H (omega (arith, l, h)) (omega arith) in
      let same = ap (λ b. buf ++ b) eb ∙ sym (append_assoc buf c rest) in
      let found = sym (ap header_end same) ∙ e' in
      let shorter = ap length eb ∙ length-append c rest in
      rw same (
        read_head_step fuel buf c rest s s' n (omega (arith, l, h)) er c0 H' found λ none_yet.
          read_head_delivered fuel (buf ++ c) rest s' n H' none_yet found
            (omega (arith, h, ap length same)) (omega (arith, shorter, c0, f)))
