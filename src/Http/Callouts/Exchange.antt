-- ===== src/Http/Callouts/Exchange.antt =====
-- The exchange with an upstream in pw_proxy_http_call of src/proxy_wasm_http.c, from the connection to the
-- kept response, and the call as a whole.
use vmod_wasm.Base.{
  ℕ, ◌+◌, ◌%◌, ◌^◌, Bool, true, false, not, ◌||◌, List, [], ◌∷◌, Option, none, some, ◌==◌,
  if◌then◌else◌, length, Bytes,
}
use vmod_wasm.Http.Replies.{Reply, read_response}
use vmod_wasm.Http.Callouts.{
  CallStatus, call_bad_argument, call_internal, status_of, CallCtx, CallArgs, Effect, conn_released,
  conn_closed, fd_closed, success_reported, failure_reported, Network, is_limited,
  effective_timeout, write_all, keep_reply, Prepared, refused, ready, prepare, body_bytes,
}

abbrev pub report : Bool → Bool → List Effect
report has_pool ok =
    if has_pool then (if ok then success_reported else failure_reported) ∷ [] else []

-- The end of an exchange that has failed before the response is read.
abbrev pub give_up : Bool → Bool → List Effect
give_up has_pool is_pooled = (if is_pooled then conn_closed else fd_closed) ∷ report has_pool false

-- The end of an exchange whose response has been read.
abbrev pub settle : {S : Type 0} → Bool → Bool → Reply S → List Effect
settle has_pool is_pooled reply =
    (if is_pooled then conn_released reply.reusable else fd_closed) ∷ report has_pool reply.complete

abbrev pub keep :
    Bool
    → CallCtx
    → ℕ
    → List Effect
    → CallStatus
    → Bytes
    → Bool
    → CallCtx × (CallStatus × List Effect)
keep entry_ok ctx ret_token_ptr effects status raw complete =
    if not complete || length raw == 0
    then (ctx, (status, effects))
    else (let (ctx', status') = keep_reply entry_ok ctx ret_token_ptr raw in
        (ctx', (status', effects)))

module _ {S : Type 0} (net : Network S) where
  -- The response, once the request has been sent.
  unfoldable pub await_reply :
      CallCtx → CallArgs → Bool → Bool → S → CallCtx × (CallStatus × List Effect)
  await_reply ctx a ssrf_exempt is_pooled s =
      if net.buffer_ok
      then (let reply = read_response net.read_some ssrf_exempt s in
          keep net.entry_ok ctx a.ret_token_ptr (settle ctx.has_pool is_pooled reply)
            (status_of reply.status) reply.received reply.complete)
      else (ctx, (call_internal, give_up ctx.has_pool is_pooled))

  abbrev pub send : Bytes → S → Bool × S
  send content s = write_all net.write (length content) content s

  abbrev pub send_found : Option Bytes → S → Bool × S
  send_found none s = (false, s)
  send_found (some content) s = send content s

  -- The body is sent where it has a size; without a memory to read it from, it is not.
  abbrev pub send_body : CallCtx → CallArgs → S → Bool × S
  send_body ctx a s = if a.body_size == 0 then (true, s) else send_found (body_bytes ctx a) s

  abbrev pub send_request : CallCtx → CallArgs → Bytes → S → Bool × S
  send_request ctx a text s =
      let (ok, s') = send text s in if ok then send_body ctx a s' else (false, s')

  unfoldable pub exchange :
      CallCtx → CallArgs → Bool → Bytes → S × Bool → CallCtx × (CallStatus × List Effect)
  exchange ctx a ssrf_exempt text (s, is_pooled) =
      let (ok, s') = send_request ctx a text s in
      if ok
      then await_reply ctx a ssrf_exempt is_pooled s'
      else (ctx, (call_internal, give_up ctx.has_pool is_pooled))

  abbrev pub connected :
      CallCtx → CallArgs → Bool → Bytes → Option (S × Bool) → CallCtx × (CallStatus × List Effect)
  connected ctx a ssrf_exempt text none = (ctx, (call_internal, report ctx.has_pool false))
  connected ctx a ssrf_exempt text (some conn) = exchange ctx a ssrf_exempt text conn

  abbrev pub call_prepared : CallCtx → CallArgs → Prepared → CallCtx × (CallStatus × List Effect)
  call_prepared ctx a (refused status) = (ctx, (status, []))
  call_prepared ctx a (ready host port ssrf_exempt text) =
      connected ctx a ssrf_exempt text
        (net.connect host port (effective_timeout a.timeout_ms ctx.http_timeout_ms) ssrf_exempt)

  unfoldable pub http_call : CallCtx → CallArgs → CallCtx × (CallStatus × List Effect)
  http_call ctx a =
      if is_limited ctx
      then (ctx, (call_bad_argument, []))
      else (let counted = record ctx { http_call_count = (ctx.http_call_count + 1) % 2 ^ 32 } in
          call_prepared counted a (prepare counted a))
