-- ===== src/Http/Callouts/Limits.antt =====
-- The limits of a callout of src/proxy_wasm_http.c: its timeout, and the number of callouts of a request.
use vmod_wasm.Base.{
  ℕ, ◌+◌, ◌%◌, ◌^◌, ◌≤◌, ◌<◌, ◌≡◌, refl, ap, ◌∙◌, inl, inr, Bool, true, false, not, ◌&&◌, ◌||◌,
  List, [], ◌∷◌, Option, none, some, ltb, leb, ◌==◌, if◌then◌else◌, length, Bytes, Bool-cases,
  arith,
}
use vmod_wasm.Memory.{Guest, Answer, returned, failed, overrun, write_u32}
use vmod_wasm.Http.Replies.{read_response}
use vmod_wasm.Http.Callouts.{
  CallStatus, CallCtx, CallArgs, Effect, Network, is_limited, effective_timeout, write_token,
  keep_reply, with_entry, next_token, Prepared, refused, ready, status_of,
}
use vmod_wasm.Http.Callouts.Exchange.{
  keep, await_reply, send_request, exchange, connected, call_prepared, http_call, settle,
}

-- The timeout of a connection is between 1 and 30000 milliseconds, and it is the module's own where that is
-- in these bounds.
pub effective_timeout_bounds :
    (own configured : ℕ)
    → (0 < effective_timeout own configured) × (effective_timeout own configured ≤ 30000)
unfolding effective_timeout
effective_timeout_bounds own configured = ground arith

-- What a callout keeps of the context: the limit and the count.
abbrev pub counts : CallCtx → ℕ × ℕ
counts ctx = (ctx.http_call_max, ctx.http_call_count)

counts-write_token :
    (ctx : CallCtx) (token : ℕ) (written : Guest × Answer)
    → counts (write_token ctx token written).0 ≡ counts ctx
counts-write_token ctx token (g, returned) = refl
counts-write_token ctx token (g, failed) = refl
counts-write_token ctx token (g, overrun) = refl

counts-keep_reply :
    (entry_ok : Bool) (ctx : CallCtx) (ptr : ℕ) (raw : Bytes)
    → counts (keep_reply entry_ok ctx ptr raw).0 ≡ counts ctx
unfolding keep_reply
counts-keep_reply true ctx ptr raw =
    counts-write_token (with_entry ctx (next_token ctx) raw) (next_token ctx)
      (write_u32 ctx.guest ptr (next_token ctx))
counts-keep_reply false ctx ptr raw = refl

counts-keep :
    (entry_ok : Bool) (ctx : CallCtx) (ptr : ℕ) (es : List Effect) (status : CallStatus)
    (raw : Bytes) (complete : Bool)
    → counts (keep entry_ok ctx ptr es status raw complete).0 ≡ counts ctx
counts-keep entry_ok ctx ptr es status raw complete =
    elim (Bool-cases (not complete || length raw == 0)) [
      | inl h ↦ rw h refl
      | inr h ↦ rw h (counts-keep_reply entry_ok ctx ptr raw)
    ]

module _ {S : Type 0} (net : Network S) where
  counts-await_reply :
      (ctx : CallCtx) (a : CallArgs) (ssrf_exempt is_pooled : Bool) (s : S)
      → counts (await_reply net ctx a ssrf_exempt is_pooled s).0 ≡ counts ctx
  unfolding await_reply
  counts-await_reply ctx a ssrf_exempt is_pooled s = elim (Bool-cases net.buffer_ok) [
    | inl h ↦
        let reply = read_response net.read_some ssrf_exempt s in
        rw h (
          counts-keep net.entry_ok ctx a.ret_token_ptr (settle ctx.has_pool is_pooled reply)
            (status_of reply.status) reply.received reply.complete)
    | inr h ↦ rw h refl
  ]

  counts-exchange :
      (ctx : CallCtx) (a : CallArgs) (ssrf_exempt : Bool) (text : Bytes) (conn : S × Bool)
      → counts (exchange net ctx a ssrf_exempt text conn).0 ≡ counts ctx
  unfolding exchange
  counts-exchange ctx a ssrf_exempt text (s, is_pooled) =
      elim (Bool-cases (send_request net ctx a text s).0) [
        | inl h ↦ rw h (counts-await_reply ctx a ssrf_exempt is_pooled _)
        | inr h ↦ rw h refl
      ]

  counts-connected :
      (ctx : CallCtx) (a : CallArgs) (ssrf_exempt : Bool) (text : Bytes) (o : Option (S × Bool))
      → counts (connected net ctx a ssrf_exempt text o).0 ≡ counts ctx
  counts-connected ctx a ssrf_exempt text none = refl
  counts-connected ctx a ssrf_exempt text (some conn) = counts-exchange ctx a ssrf_exempt text conn

  counts-call_prepared :
      (ctx : CallCtx) (a : CallArgs) (p : Prepared)
      → counts (call_prepared net ctx a p).0 ≡ counts ctx
  counts-call_prepared ctx a (refused status) = refl
  counts-call_prepared ctx a (ready host port ssrf_exempt text) =
      counts-connected ctx a ssrf_exempt text _

  -- One call counts itself, unless it is over the limit.
  counts-http_call :
      (ctx : CallCtx) (a : CallArgs)
      → counts (http_call net ctx a).0 ≡ (
          if is_limited ctx
          then counts ctx
          else (ctx.http_call_max, (ctx.http_call_count + 1) % 2 ^ 32))
  unfolding http_call
  counts-http_call ctx a = elim (Bool-cases (is_limited ctx)) [
    | inl h ↦ rw h refl
    | inr h ↦ rw h (
        counts-call_prepared (record ctx { http_call_count = (ctx.http_call_count + 1) % 2 ^ 32 }) a
          _)
  ]

  -- The callouts of a request, and how many of them are within the limit.
  pub run_calls : List CallArgs → CallCtx → CallCtx × ℕ
  run_calls [] ctx = (ctx, 0)
  run_calls (a ∷ rest) ctx =
      let (ctx', n) = run_calls rest (http_call net ctx a).0 in
      (ctx', (if is_limited ctx then 0 else 1) + n)

  module _ (most : ℕ) (some_limit : 0 < most) (word : most < 2 ^ 32) where
    http_call_limited :
        (ctx : CallCtx) (a : CallArgs)
        → is_limited ctx ≡ true
        → counts (http_call net ctx a).0 ≡ counts ctx
    http_call_limited ctx a l =
        counts-http_call ctx a
        ∙ ap
            (λ b. if b then counts ctx else (ctx.http_call_max, (ctx.http_call_count + 1) % 2 ^ 32))
            l

    http_call_counted :
        (ctx : CallCtx) (a : CallArgs)
        → is_limited ctx ≡ false
        → counts (http_call net ctx a).0 ≡ (ctx.http_call_max, (ctx.http_call_count + 1) % 2 ^ 32)
    http_call_counted ctx a l =
        counts-http_call ctx a
        ∙ ap
            (λ b. if b then counts ctx else (ctx.http_call_max, (ctx.http_call_count + 1) % 2 ^ 32))
            l

    below_limit :
        (max count : ℕ)
        → max ≡ most
        → (ltb 0 max && leb max count) ≡ false
        → (count < most) × ((count + 1) % 2 ^ 32 ≡ count + 1)
    below_limit max count e l = ground arith

    -- Where a request has a limit, and has not made more callouts than that, it never does: after any further
    -- calls the count is within the limit, and it has grown by the number of calls that went on.
    pub run_calls_within :
        (calls : List CallArgs) (ctx : CallCtx)
        → ctx.http_call_max ≡ most
        → ctx.http_call_count ≤ most
        → let (ctx', n) = run_calls calls ctx in
          (ctx'.http_call_count ≤ most) × (ctx.http_call_count + n ≡ ctx'.http_call_count)
    unfolding run_calls
    run_calls_within [] ctx e h = (h, ground arith)
    run_calls_within (a ∷ rest) ctx e h = elim (Bool-cases (is_limited ctx)) [
      | inl l ↦
          let same = http_call_limited ctx a l in
          let (k, g) =
            run_calls_within rest (http_call net ctx a).0 (ap (λ p. p.0) same ∙ e)
              (omega (arith, ap (λ p. p.1) same, h)) in
          (k, rw l (omega (arith, g, ap (λ p. p.1) same)))
      | inr l ↦
          let step = http_call_counted ctx a l in
          let (below, whole) = below_limit ctx.http_call_max ctx.http_call_count e l in
          let (k, g) =
            run_calls_within rest (http_call net ctx a).0 (ap (λ p. p.0) step ∙ e)
              (omega (arith, ap (λ p. p.1) step, below, whole)) in
          (k, rw l (omega (arith, g, ap (λ p. p.1) step, whole)))
    ]
