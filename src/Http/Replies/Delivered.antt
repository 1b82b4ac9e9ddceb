-- ===== src/Http/Replies/Delivered.antt =====
-- The response that pw_proxy_http_call of src/proxy_wasm_http.c reads does not depend on how its bytes are
-- spread over the reads.
use mathlib.Core.List.{append_assoc, append-nil}
use vmod_wasm.Base.{
  ℕ, zero, suc, ◌+◌, ◌-◌, ◌≤◌, ◌<◌, ◌≡◌, refl, sym, ap, ◌∙◌, inl, inr, Bool, false, not, ◌&&◌, ◌||◌,
  [], ◌∷◌, ◌++◌, some, ltb, ◌==◌, if◌then◌else◌, length, take, length-append, Bytes, Bool-cases,
  arith,
}
use vmod_wasm.Http.Replies.{
  max_response, header_end, Head, Rest, Reply, again, add_body, body_round, read_body, read_framed,
  read_rest, read_response, framing, framed, is_chunked, is_http11, is_closing, completed,
  finish_body, read_after,
}
use vmod_wasm.Http.Replies.Ends.{header_end_bounds, take-append}
use vmod_wasm.Http.Replies.Arrivals.{Delivers, FoundHead, read_head_delivered}

module _ {S : Type 0} (read_some : ℕ → S → Bytes × S) (Holds : S → Bytes → Type 0)
    (delivers : Delivers read_some Holds) where
  add_body_nonempty :
      (need : ℕ) (buf c : Bytes) (s : S)
      → 0 < length c
      → add_body need buf (c, s) ≡ again (buf ++ c) s
  add_body_nonempty need buf [] s h = absurd (ground arith)
  add_body_nonempty need buf (c ∷ cs) s h = refl

  -- How much a round of the second loop asks for.
  abbrev wanted : ℕ → Bytes → ℕ
  wanted need buf = if ltb need (max_response - length buf) then need else max_response - length buf

  wanted_bounds :
      (need : ℕ) (buf : Bytes)
      → 0 < need
      → length buf + need ≤ max_response
      → (0 < wanted need buf) × (wanted need buf ≤ need)
  wanted_bounds need buf h h' = ground arith

  body_round_delivered :
      (need : ℕ) (buf c : Bytes) (s s' : S)
      → 0 < need
      → length buf < max_response
      → read_some (wanted need buf) s ≡ (c, s')
      → 0 < length c
      → body_round read_some need buf s ≡ again (buf ++ c) s'
  body_round_delivered need buf c s s' h h' e c0 =
      elim (Bool-cases (need == 0 || (max_response - length buf) == 0)) [
        | inl z ↦ absurd (ground arith)
        | inr z ↦ rw z (ap (add_body need buf) e ∙ add_body_nonempty need buf c s' c0)
      ]

  -- What the second loop leaves of the body, which the socket holds.
  abbrev GotAll : Bytes → Rest S → Type 0
  GotAll whole r =
      (s' : S) × (r ≡ record { body_need = 0; received = whole; socket = s' }) × Holds s' []

  read_body_step :
      (fuel need : ℕ) (buf c rest : Bytes) (s s' : S)
      → 0 < need
      → length buf < max_response
      → read_some (wanted need buf) s ≡ (c, s')
      → 0 < length c
      → GotAll
          ((buf ++ c) ++ rest)
          (read_body read_some fuel (need - (length (buf ++ c) - length buf)) (buf ++ c) s')
      → GotAll ((buf ++ c) ++ rest) (read_body read_some (suc fuel) need buf s)
  unfolding read_body
  read_body_step fuel need buf c rest s s' h h' e c0 g =
      rw (body_round_delivered need buf c s s' h h' e c0) g

  read_body_delivered :
      (fuel need : ℕ) (buf rest : Bytes) (s : S)
      → Holds s rest
      → length rest ≡ need
      → length buf + need ≤ max_response
      → need ≤ fuel
      → GotAll (buf ++ rest) (read_body read_some fuel need buf s)
  unfolding read_body
  read_body_delivered fuel (suc need) buf [] s H l h f = absurd (ground arith)
  read_body_delivered fuel zero buf (r ∷ rs) s H l h f = absurd (ground arith)
  read_body_delivered zero (suc need) buf (r ∷ rs) s H l h f = absurd (ground arith)
  read_body_delivered zero zero buf [] s H l h f =
      (s, ap (λ b. record { body_need = 0; received = b; socket = s }) (sym (append-nil buf)), H)
  read_body_delivered (suc fuel) zero buf [] s H l h f =
      (s, ap (λ b. record { body_need = 0; received = b; socket = s }) (sym (append-nil buf)), H)
  read_body_delivered (suc fuel) (suc need) buf (r ∷ rs) s H l h f =
      let asks = wanted_bounds (suc need) buf (omega arith) h in
      let (c, rest, s', er, eb, c0, cn, H') =
        delivers (wanted (suc need) buf) s (r ∷ rs) H asks.0 (omega arith) in
      let same = ap (λ b. buf ++ b) eb ∙ sym (append_assoc buf c rest) in
      let shorter = ap length eb ∙ length-append c rest in
      let longer = length-append buf c in
      rw same (
        read_body_step fuel (suc need) buf c rest s s' (omega arith) (omega (arith, h)) er c0 (
          read_body_delivered fuel (suc need - (length (buf ++ c) - length buf)) (buf ++ c) rest s'
            H' (omega (arith, shorter, longer, l, cn, asks.1))
            (omega (arith, shorter, longer, l, h)) (omega (arith, longer, c0, f))))

  -- How a response is left that has been read as a whole.
  abbrev pub GotReply : Bool → ℕ → Bytes → Reply S → Type 0
  GotReply ssrf_exempt n whole r =
      (s' : S) × (r
        ≡ completed (is_http11 whole && not (is_closing (take n whole)) && ssrf_exempt) whole s')
      × Holds s' []

  finish_delivered :
      (reusable : Bool) (whole : Bytes) (rest : Rest S)
      → GotAll whole rest
      → (s' : S) × (finish_body reusable rest ≡ completed reusable whole s') × Holds s' []
  finish_delivered reusable whole rest (s', e, H) = (s', rw e refl, H)

  read_framed_delivered :
      (reusable : Bool) (n m : ℕ) (p q : Bytes) (s : S)
      → Holds s q
      → n ≤ length p
      → length p + length q ≡ n + m
      → n + m ≤ max_response
      → (s' : S) × (read_framed read_some reusable n m p s ≡ completed reusable (p ++ q) s')
        × Holds s' []
  unfolding read_framed
  read_framed_delivered reusable n m p q s H h l b = elim (Bool-cases (ltb (max_response - n) m)) [
    | inl z ↦ absurd (ground arith)
    | inr z ↦ elim (Bool-cases (ltb m (length p - n))) [
      | inl z' ↦ absurd (ground arith)
      | inr z' ↦
          rw (z, z')
            (finish_delivered reusable (p ++ q) _ (
              read_body_delivered _ _ p q s H (omega (arith, h, l)) (omega (arith, h, l, b))
                (omega arith)))
    ]
  ]

  read_rest_delivered :
      (ssrf_exempt : Bool) (n m : ℕ) (p q : Bytes) (s : S)
      → Holds s q
      → header_end p ≡ some n
      → 8 ≤ n
      → is_chunked (take n (p ++ q)) ≡ false
      → framing (take n (p ++ q)) ≡ framed m
      → length (p ++ q) ≡ n + m
      → n + m ≤ max_response
      → GotReply ssrf_exempt n (p ++ q) (read_rest read_some ssrf_exempt n p s)
  unfolding read_rest
  read_rest_delivered ssrf_exempt n m p q s H e k c d l b =
      let fits = (header_end_bounds p e).1 in
      let headers = take-append n p q fits in
      let version = take-append 8 p q (omega (arith, k, fits)) in
      rw (headers, version)
        (rw (sym (ap is_chunked headers) ∙ c, sym (ap framing headers) ∙ d)
          (read_framed_delivered _ n m p q s H fits (sym (length-append p q) ∙ l) b))

  found_delivered :
      (ssrf_exempt : Bool) (n m : ℕ) (whole : Bytes) (head : Head S)
      → FoundHead read_some Holds delivers n whole head
      → 8 ≤ n
      → is_chunked (take n whole) ≡ false
      → framing (take n whole) ≡ framed m
      → length whole ≡ n + m
      → n + m ≤ max_response
      → GotReply ssrf_exempt n whole (read_after read_some ssrf_exempt head)
  found_delivered ssrf_exempt n m whole head (p, q, s', eh, same, e, H) k c d l b =
      rw (eh, ← same)
        (read_rest_delivered ssrf_exempt n m p q s' H e k (ap (λ w. is_chunked (take n w)) same ∙ c)
          (ap (λ w. framing (take n w)) same ∙ d) (ap length same ∙ l) b)

  -- A response of headers and a body of the length that they declare is read as it is, and taken for
  -- complete, however the socket spreads its bytes over the reads; nothing of it is left behind, and the
  -- connection is reusable where the headers and the allowlist let it. The headers have eight bytes at least
  -- and are not chunked, and the response is within the bound.
  pub read_response_delivered :
      (ssrf_exempt : Bool) (n m : ℕ) (whole : Bytes) (s : S)
      → Holds s whole
      → header_end whole ≡ some n
      → 8 ≤ n
      → is_chunked (take n whole) ≡ false
      → framing (take n whole) ≡ framed m
      → length whole ≡ n + m
      → n + m ≤ max_response
      → GotReply ssrf_exempt n whole (read_response read_some ssrf_exempt s)
  unfolding read_response header_end
  read_response_delivered ssrf_exempt n m whole s H e k c d l b =
      found_delivered ssrf_exempt n m whole _
        (read_head_delivered read_some Holds delivers max_response [] whole s n H refl e
          (omega (arith, l, b)) (omega (arith, l, b)))
        k c d l b
