-- ===== src/Http/Callouts/Answers.antt =====
-- A callout of src/proxy_wasm_http.c to an upstream that answers, from the call to the kept response.
use vmod_wasm.Base.{
  ℕ, ◌+◌, ◌%◌, ◌^◌, ◌≤◌, ◌<◌, ◌≡◌, refl, ap, ◌∙◌, inl, inr, Bool, true, false, not, ◌&&◌, List, ◌∷◌,
  some, ◌==◌, if◌then◌else◌, length, take, Bytes, Bool-cases, arith,
}
use vmod_wasm.Http.Replies.{
  header_end, is_chunked, is_closing, is_http11, framing, framed, max_response, completed,
  read_response,
}
use vmod_wasm.Http.Replies.Arrivals.{Delivers}
use vmod_wasm.Http.Replies.Delivered.{read_response_delivered}
use vmod_wasm.Http.Callouts.{
  CallStatus, CallCtx, CallArgs, Effect, conn_released, fd_closed, Network, is_limited,
  effective_timeout, keep_reply, ready, prepare, body_bytes,
}
use vmod_wasm.Http.Callouts.Exchange.{
  report, settle, keep, await_reply, send, send_found, send_body, send_request, exchange, connected,
  call_prepared, http_call,
}
use vmod_wasm.Http.Callouts.Sending.{Accepts, write_all_succeeds}

-- The context of a call that goes on.
abbrev pub counted : CallCtx → CallCtx
counted ctx = record ctx { http_call_count = (ctx.http_call_count + 1) % 2 ^ 32 }

keep_whole :
    (entry_ok : Bool) (ctx : CallCtx) (ptr : ℕ) (es : List Effect) (status : CallStatus)
    (raw : Bytes)
    → 0 < length raw
    → keep entry_ok ctx ptr es status raw true
      ≡ ((keep_reply entry_ok ctx ptr raw).0, ((keep_reply entry_ok ctx ptr raw).1, es))
keep_whole entry_ok ctx ptr es status raw h = elim (Bool-cases (length raw == 0)) [
  | inl z ↦ absurd (ground arith)
  | inr z ↦ rw z refl
]

module _ {S : Type 0} (net : Network S) (a : CallArgs) where
  send_body_succeeds :
      (ctx : CallCtx) (content : Bytes) (s : S)
      → Accepts net.write
      → body_bytes ctx a ≡ some content
      → (send_body net ctx a s).0 ≡ true
  send_body_succeeds ctx content s acc e = elim (Bool-cases (a.body_size == 0)) [
    | inl z ↦ rw z refl
    | inr z ↦ rw z (
        ap (λ o. (send_found net o s).0) e
        ∙ write_all_succeeds net.write (length content) content s acc (omega arith))
  ]

  send_request_succeeds :
      (ctx : CallCtx) (text content : Bytes) (s : S)
      → Accepts net.write
      → body_bytes ctx a ≡ some content
      → (send_request net ctx a text s).0 ≡ true
  send_request_succeeds ctx text content s acc e =
      ap
        (λ b.
          (if b then send_body net ctx a (send net text s).1 else (false, (send net text s).1)).0)
        (write_all_succeeds net.write (length text) text s acc (omega arith))
      ∙ send_body_succeeds ctx content (send net text s).1 acc e

  settle-completed :
      (ctx : CallCtx) (ssrf_exempt is_pooled reusable : Bool) (whole : Bytes) (s s' : S)
      → net.buffer_ok ≡ true
      → 0 < length whole
      → read_response net.read_some ssrf_exempt s ≡ completed reusable whole s'
      → await_reply net ctx a ssrf_exempt is_pooled s ≡ (
          let (ctx', status) = keep_reply net.entry_ok ctx a.ret_token_ptr whole in
          (ctx', (status, settle ctx.has_pool is_pooled (completed reusable whole s'))))
  unfolding await_reply
  settle-completed ctx ssrf_exempt is_pooled reusable whole s s' b h e =
      rw (b, e) (keep_whole net.entry_ok ctx a.ret_token_ptr _ _ whole h)

  exchange_sent :
      (ctx : CallCtx) (ssrf_exempt is_pooled : Bool) (text : Bytes) (s : S)
      → (send_request net ctx a text s).0 ≡ true
      → exchange net ctx a ssrf_exempt text (s, is_pooled)
        ≡ await_reply net ctx a ssrf_exempt is_pooled (send_request net ctx a text s).1
  unfolding exchange
  exchange_sent ctx ssrf_exempt is_pooled text s h = rw h refl

  http_call_connected :
      (ctx : CallCtx) (host : Bytes) (port : ℕ) (ssrf_exempt is_pooled : Bool) (text : Bytes)
      (s : S)
      → is_limited ctx ≡ false
      → prepare (counted ctx) a ≡ ready host port ssrf_exempt text
      → net.connect host port (effective_timeout a.timeout_ms ctx.http_timeout_ms) ssrf_exempt
        ≡ some (s, is_pooled)
      → http_call net ctx a ≡ exchange net (counted ctx) a ssrf_exempt text (s, is_pooled)
  unfolding http_call
  http_call_connected ctx host port ssrf_exempt is_pooled text s l p c = rw l (
      ap (call_prepared net (counted ctx) a) p
      ∙ ap (connected net (counted ctx) a ssrf_exempt text) c)

  module _ (Holds : S → Bytes → Type 0) (delivers : Delivers net.read_some Holds)
      (accepts : Accepts net.write) (buffer_ok : net.buffer_ok ≡ true) where
    -- A callout that is within its limit, whose arguments and body can be read and whose connection is made
    -- comes to `keep_reply` on exactly the response that the upstream gives, however the socket takes the
    -- request and spreads the response: a connection of the pool is given back, for reuse where the headers
    -- and the allowlist let it, any other is closed, and the breaker, where there is a pool, is told of a
    -- success. The response has headers of eight bytes at least, not chunked, and a body of the length that
    -- they declare, is within the bound, and there is memory for it; the socket takes a byte at least of
    -- each write, and holds the response once the request is sent.
    pub http_call_answered :
        (ctx : CallCtx) (host : Bytes) (port : ℕ) (ssrf_exempt is_pooled : Bool)
        (text content whole : Bytes) (s : S) (n m : ℕ)
        → is_limited ctx ≡ false
        → prepare (counted ctx) a ≡ ready host port ssrf_exempt text
        → net.connect host port (effective_timeout a.timeout_ms ctx.http_timeout_ms) ssrf_exempt
          ≡ some (s, is_pooled)
        → body_bytes (counted ctx) a ≡ some content
        → Holds (send_request net (counted ctx) a text s).1 whole
        → header_end whole ≡ some n
        → 8 ≤ n
        → is_chunked (take n whole) ≡ false
        → framing (take n whole) ≡ framed m
        → length whole ≡ n + m
        → n + m ≤ max_response
        → http_call net ctx a ≡ (
            let (ctx', status) = keep_reply net.entry_ok (counted ctx) a.ret_token_ptr whole in
            let reusable = is_http11 whole && not (is_closing (take n whole)) && ssrf_exempt in
            (
              ctx',
              (
                status,
                (if is_pooled then conn_released reusable else fd_closed)
                    ∷ report ctx.has_pool true,
              ),
            ))
    http_call_answered ctx host port ssrf_exempt is_pooled text content whole s n m l p c e H h k nc
          d w b =
        let (s', got, _) =
          read_response_delivered net.read_some Holds delivers ssrf_exempt n m whole _ H h k nc d w
            b in
        http_call_connected ctx host port ssrf_exempt is_pooled text s l p c
        ∙ (exchange_sent (counted ctx) ssrf_exempt is_pooled text s
              (send_request_succeeds (counted ctx) text content s accepts e)
            ∙ settle-completed (counted ctx) ssrf_exempt is_pooled _ whole _ s' buffer_ok
                (omega (arith, w, k)) got)
