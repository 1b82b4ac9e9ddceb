-- ===== src/Http/Replies/Framing.antt =====
-- When pw_proxy_http_call of src/proxy_wasm_http.c takes a response for complete, and when its connection
-- for reusable.
use mathlib.Core.Option.{some-injective}
use mathlib.Core.List.{append-nil}
use vmod_wasm.Base.{
  ℕ, ◌+◌, ◌-◌, ◌≤◌, ◌≡◌, refl, sym, ap, ◌∙◌, inl, inr, Bool, true, false, not, ◌&&◌, [], ◌++◌,
  Option, none, some, ltb, ◌==◌, length, take, drop, Bytes, Bool-cases, arith,
}
use vmod_wasm.Http.Replies.{
  max_response, header_end, Head, Rest, Framed, unframed, unreadable, framed, is_chunked, is_http11,
  is_closing, framing, finish_body, read_framed, read_as, read_rest, read_after, read_response,
  reply_internal, reply_parse_failure, reply_unimplemented,
}
use vmod_wasm.Http.Replies.Reads.{
  IsBounded, GoodHead, read_head-GoodHead, GoodRest, read_body-GoodRest,
}
use vmod_wasm.Http.Replies.Ends.{append-take-drop, length-take_le, header_end_bounds}
use vmod_wasm.Http.Replies.Exact.{
  IsAnswer, with_length, without_length, KeepsAlive, IsReusable, IsReusable-framed, IsGood,
  incomplete-IsGood, IsFramed-cut, IsFramed-grown, KeepsAlive-grown, ltb-false, and3,
}
use vmod_wasm.Http.Replies.History.{
  Follows, Records, Records-Follows, read_head-Seen, read_body-Seen,
}

module _ {S : Type 0} (Seen : Bytes → S → Type 0) (ssrf_exempt : Bool) where
  finish_body-IsGood :
      (reusable : Bool) (rest : Rest S) (b : Bytes) (n m need : ℕ)
      → header_end b ≡ some n
      → is_chunked (take n b) ≡ false
      → framing (take n b) ≡ framed m
      → length b + need ≡ n + m
      → (reusable ≡ true → KeepsAlive ssrf_exempt b)
      → GoodRest need b rest
      → Seen rest.received rest.socket
      → IsGood Seen ssrf_exempt (finish_body reusable rest)
  finish_body-IsGood reusable rest b n m need e c d h k (x, ex, l, r) seen =
      elim (Bool-cases (rest.body_need == 0)) [
        | inl z ↦
            let whole = IsFramed-grown b x n m e c d (ground arith) in
            rw z (
              r,
              λ _. ([], rw (append-nil rest.received) seen, with_length (rw ex whole)),
              λ u. (
                rw ex (
                    IsReusable-framed ssrf_exempt (b ++ x)
                      (KeepsAlive-grown ssrf_exempt b x e (k u)) whole),
                seen,
              ),
            )
        | inr z ↦
            rw z (incomplete-IsGood Seen ssrf_exempt reply_internal rest.received rest.socket r)
      ]

  module _ (read_some : ℕ → S → Bytes × S) (bounded : IsBounded read_some)
      (follows : Follows read_some Seen) where
    read_framed-IsGood :
        (reusable : Bool) (n m : ℕ) (b : Bytes) (s : S)
        → header_end b ≡ some n
        → is_chunked (take n b) ≡ false
        → framing (take n b) ≡ framed m
        → length b ≤ max_response
        → (reusable ≡ true → KeepsAlive ssrf_exempt b)
        → Seen b s
        → IsGood Seen ssrf_exempt (read_framed read_some reusable n m b s)
    unfolding read_framed
    read_framed-IsGood reusable n m b s e c d h k seen =
        elim (Bool-cases (ltb (max_response - n) m)) [
          | inl z ↦ rw z (incomplete-IsGood Seen ssrf_exempt reply_internal b s h)
          | inr z ↦ rw z (elim (Bool-cases (ltb m (length b - n))) [
            | inl z' ↦ rw z' (
              omega (arith, h, length-take_le (n + m) b),
              λ _. (
                drop (n + m) b,
                rw (append-take-drop (n + m) b) seen,
                with_length (IsFramed-cut b n m e c d (ground arith)),
              ),
              λ u. cc u,
            )
            | inr z' ↦ rw z' (
                finish_body-IsGood reusable _ b n m _ e c d
                  (omega (arith, (header_end_bounds b e).1, ltb-false z')) k
                  (read_body-GoodRest read_some bounded _ _ b s h)
                  (read_body-Seen read_some Seen follows _ _ b s seen))
          ])
        ]

    read_as-IsGood :
        (reusable : Bool) (n : ℕ) (f : Framed) (b : Bytes) (s : S)
        → framing (take n b) ≡ f
        → header_end b ≡ some n
        → is_chunked (take n b) ≡ false
        → length b ≤ max_response
        → (reusable ≡ true → KeepsAlive ssrf_exempt b)
        → Seen b s
        → IsGood Seen ssrf_exempt (read_as read_some reusable n f b s)
    read_as-IsGood reusable n unreadable b s d e c h k seen =
        incomplete-IsGood Seen ssrf_exempt reply_parse_failure b s h
    read_as-IsGood reusable n (framed m) b s d e c h k seen =
        read_framed-IsGood reusable n m b s e c d h k seen
    read_as-IsGood reusable n unframed b s d e c h k seen = elim (Bool-cases (length b == n)) [
      | inl z ↦ rw z (
        h,
        λ _. ([], rw (append-nil b) seen, without_length (n, e, c, d, ground arith)),
        λ u. cc u,
      )
      | inr z ↦ rw z (incomplete-IsGood Seen ssrf_exempt reply_parse_failure b s h)
    ]

    KeepsAlive-here :
        (n : ℕ) (b : Bytes)
        → header_end b ≡ some n
        → (is_http11 b && not (is_closing (take n b)) && ssrf_exempt) ≡ true
        → KeepsAlive ssrf_exempt b
    KeepsAlive-here n b e h =
        let (v, c, x) = and3 (is_http11 b) (is_closing (take n b)) ssrf_exempt h in
        (x, v, λ k e'. ap is_closing (ap (λ i. take i b) (some-injective _ _ (sym e' ∙ e))) ∙ c)

    read_rest-IsGood :
        (n : ℕ) (b : Bytes) (s : S)
        → header_end b ≡ some n
        → length b ≤ max_response
        → Seen b s
        → IsGood Seen ssrf_exempt (read_rest read_some ssrf_exempt n b s)
    unfolding read_rest
    read_rest-IsGood n b s e h seen = elim (Bool-cases (is_chunked (take n b))) [
      | inl z ↦ rw z (incomplete-IsGood Seen ssrf_exempt reply_unimplemented b s h)
      | inr z ↦ rw z (read_as-IsGood _ n _ b s refl e z h (KeepsAlive-here n b e) seen)
    ]

    read_after-IsGood :
        (o : Option ℕ) (head : Head S)
        → head.ends_at ≡ o
        → GoodHead head
        → Seen head.received head.socket
        → IsGood Seen ssrf_exempt (read_after read_some ssrf_exempt head)
    read_after-IsGood none head e (h, g) seen =
        rw e (incomplete-IsGood Seen ssrf_exempt reply_parse_failure head.received head.socket h)
    read_after-IsGood (some n) head e (h, g) seen =
        rw e (read_rest-IsGood n head.received head.socket (g n e) h seen)

    pub read_response-IsGood :
        (s : S) → Seen [] s → IsGood Seen ssrf_exempt (read_response read_some ssrf_exempt s)
    unfolding read_response
    read_response-IsGood s seen =
        read_after-IsGood _ _ refl
          (read_head-GoodHead read_some bounded max_response [] s (ground arith))
          (read_head-Seen read_some Seen follows max_response [] s seen)

module _ {S : Type 0} (ssrf_exempt : Bool) (read_some : ℕ → S → Bytes × S)
    (bounded : IsBounded read_some) where
  -- The response that has been received is never longer than the bound. A read gives no more bytes than
  -- it may.
  pub length-read_response :
      (s : S) → length (read_response read_some ssrf_exempt s).received ≤ max_response
  length-read_response s =
      (read_response-IsGood (λ _ _. Unit) ssrf_exempt read_some bounded (λ _ _ _ _. tt) s tt).0

  module _ (seen : S → Bytes) (records : Records read_some seen) where
    from_start :
        (s : S)
        → IsGood (λ b t. seen t ≡ seen s ++ b) ssrf_exempt (read_response read_some ssrf_exempt s)
    from_start s =
        read_response-IsGood (λ b t. seen t ≡ seen s ++ b) ssrf_exempt read_some bounded
          (Records-Follows read_some seen (seen s) records) s (sym (append-nil (seen s)))

    -- What is taken for a complete response is the beginning of what the socket has given.
    pub read_response_complete :
        (s : S)
        → (read_response read_some ssrf_exempt s).complete ≡ true
        → let r = read_response read_some ssrf_exempt s in
          (x : Bytes) × (seen r.socket ≡ seen s ++ (r.received ++ x)) × IsAnswer r.received x
    read_response_complete s h = (from_start s).1 h

    -- A response whose connection is left for reuse is all that the socket has given.
    pub read_response_reusable :
        (s : S)
        → (read_response read_some ssrf_exempt s).reusable ≡ true
        → let r = read_response read_some ssrf_exempt s in
          IsReusable ssrf_exempt r.received × (seen r.socket ≡ seen s ++ r.received)
    read_response_reusable s h = (from_start s).2 h
