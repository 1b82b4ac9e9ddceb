-- ===== src/Http/Callouts/Outcomes.antt =====
-- What a callout of src/proxy_wasm_http.c does to its connection and to the circuit breaker, on every path.
use vmod_wasm.Base.{
  ℕ, ◌+◌, ◌≡◌, refl, inl, inr, Bool, true, false, not, ◌||◌, List, [], ◌∷◌, ◌++◌, ◌==◌,
  if◌then◌else◌, length, Bytes, Bool-cases,
}
use vmod_wasm.Http.Replies.{Reply, read_response}
use vmod_wasm.Http.Replies.Reads.{IsBounded}
use vmod_wasm.Http.Replies.Exact.{IsAnswer, IsReusable}
use vmod_wasm.Http.Replies.History.{Records}
use vmod_wasm.Http.Replies.Framing.{read_response_complete, read_response_reusable}
use vmod_wasm.Http.Callouts.{
  CallStatus, CallCtx, CallArgs, Effect, conn_released, conn_closed, fd_closed, success_reported,
  failure_reported, Network,
}
use vmod_wasm.Http.Callouts.Exchange.{
  report, give_up, settle, keep, await_reply, send_request, exchange,
}

-- How often the connection is given back or closed, and how often the breaker is told of the outcome.
abbrev pub tally : List Effect → ℕ × ℕ
tally [] = (0, 0)
tally (conn_released reusable ∷ es) = let (ends, reports) = tally es in (ends + 1, reports)
tally (conn_closed ∷ es) = let (ends, reports) = tally es in (ends + 1, reports)
tally (fd_closed ∷ es) = let (ends, reports) = tally es in (ends + 1, reports)
tally (success_reported ∷ es) = let (ends, reports) = tally es in (ends, reports + 1)
tally (failure_reported ∷ es) = let (ends, reports) = tally es in (ends, reports + 1)

abbrev pub once : Bool → ℕ × ℕ
once has_pool = (1, if has_pool then 1 else 0)

tally-give_up : (has_pool is_pooled : Bool) → tally (give_up has_pool is_pooled) ≡ once has_pool
tally-give_up true true = refl
tally-give_up true false = refl
tally-give_up false true = refl
tally-give_up false false = refl

tally_settled :
    (has_pool is_pooled complete reusable : Bool)
    → tally ((if is_pooled then conn_released reusable else fd_closed) ∷ report has_pool complete)
      ≡ once has_pool
tally_settled true true true r = refl
tally_settled true true false r = refl
tally_settled true false true r = refl
tally_settled true false false r = refl
tally_settled false true c r = refl
tally_settled false false c r = refl

effects_kept :
    (entry_ok : Bool) (ctx : CallCtx) (ptr : ℕ) (es : List Effect) (status : CallStatus)
    (raw : Bytes) (complete : Bool)
    → (keep entry_ok ctx ptr es status raw complete).1.1 ≡ es
effects_kept entry_ok ctx ptr es status raw complete =
    elim (Bool-cases (not complete || length raw == 0)) [ inl h ↦ rw h refl | inr h ↦ rw h refl ]

-- The effects tell that a connection may be used again.
abbrev pub keeps_conn : List Effect → Bool
keeps_conn (conn_released reusable ∷ _) = reusable
keeps_conn _ = false

-- The effects tell the breaker of a success.
abbrev pub tells_success : List Effect → Bool
tells_success (_ ∷ success_reported ∷ _) = true
tells_success _ = false

success_settled :
    (has_pool is_pooled complete reusable : Bool)
    → tells_success
        ((if is_pooled then conn_released reusable else fd_closed) ∷ report has_pool complete)
      ≡ true
    → complete ≡ true
success_settled has_pool is_pooled true r h = refl
success_settled true true false r h = h
success_settled true false false r h = h
success_settled false true false r h = h
success_settled false false false r h = h

module _ {S : Type 0} (net : Network S) (ctx : CallCtx) (a : CallArgs) (ssrf_exempt : Bool) where
  -- What a socket answers once the request has been sent to it.
  abbrev pub answer_of : S → Reply S
  answer_of s = read_response net.read_some ssrf_exempt s

  -- The effects of an exchange are those of giving up, or of settling the answer of a socket.
  data EndsBy (is_pooled : Bool) (s : S) : List Effect → Type 0 where
    gave_up : EndsBy is_pooled s (give_up ctx.has_pool is_pooled)
    settled : EndsBy is_pooled s (settle ctx.has_pool is_pooled (answer_of s))

  await_reply_ends :
      (is_pooled : Bool) (s : S)
      → EndsBy is_pooled s (await_reply net ctx a ssrf_exempt is_pooled s).1.1
  unfolding await_reply
  await_reply_ends is_pooled s = elim (Bool-cases net.buffer_ok) [
    | inl h ↦ rw (h, effects_kept) settled
    | inr h ↦ rw h gave_up
  ]

  exchange_ends :
      (text : Bytes) (s : S) (is_pooled : Bool)
      → EndsBy is_pooled
          (send_request net ctx a text s).1
          (exchange net ctx a ssrf_exempt text (s, is_pooled)).1.1
  unfolding exchange
  exchange_ends text s is_pooled = elim (Bool-cases (send_request net ctx a text s).0) [
    | inl h ↦ rw h (await_reply_ends is_pooled _)
    | inr h ↦ rw h gave_up
  ]

  tally-EndsBy :
      {is_pooled : Bool} {s : S} {es : List Effect}
      → EndsBy is_pooled s es
      → tally es ≡ once ctx.has_pool
  tally-EndsBy {is_pooled} gave_up = tally-give_up ctx.has_pool is_pooled
  tally-EndsBy {is_pooled} settled = tally_settled ctx.has_pool is_pooled _ _

  -- On every path of an exchange the connection is given back or closed exactly once, and the circuit
  -- breaker, where there is a pool, is told of the outcome exactly once.
  pub tally-exchange :
      (text : Bytes) (s : S) (is_pooled : Bool)
      → tally (exchange net ctx a ssrf_exempt text (s, is_pooled)).1.1 ≡ once ctx.has_pool
  tally-exchange text s is_pooled = tally-EndsBy (exchange_ends text s is_pooled)

  keeps_conn-EndsBy :
      {is_pooled : Bool} {s : S} {es : List Effect}
      → EndsBy is_pooled s es
      → keeps_conn es ≡ true
      → (answer_of s).reusable ≡ true
  keeps_conn-EndsBy {is_pooled = true} gave_up h = cc h
  keeps_conn-EndsBy {is_pooled = false} gave_up h = cc h
  keeps_conn-EndsBy {is_pooled = false} settled h = cc h
  keeps_conn-EndsBy {is_pooled = true} settled h = h

  -- An exchange gives its connection back for reuse only where the upstream is on the allowlist and all that
  -- the socket has given since the request was sent is one HTTP/1.1 response that does not ask to close and is
  -- not chunked: headers with a Content-Length, and a body of exactly that length. A read gives no more bytes
  -- than it may, and `seen` is all that a socket has ever given.
  pub exchange_reuses :
      (seen : S → Bytes) (text : Bytes) (s : S) (is_pooled : Bool)
      → IsBounded net.read_some
      → Records net.read_some seen
      → keeps_conn (exchange net ctx a ssrf_exempt text (s, is_pooled)).1.1 ≡ true
      → let sent = (send_request net ctx a text s).1 in
        IsReusable ssrf_exempt (answer_of sent).received
        × (seen (answer_of sent).socket ≡ seen sent ++ (answer_of sent).received)
  exchange_reuses seen text s is_pooled b r h =
      read_response_reusable ssrf_exempt net.read_some b seen r _
        (keeps_conn-EndsBy (exchange_ends text s is_pooled) h)

  tells_success-EndsBy :
      {is_pooled : Bool} {s : S} {es : List Effect}
      → EndsBy is_pooled s es
      → tells_success es ≡ true
      → (answer_of s).complete ≡ true
  tells_success-EndsBy {is_pooled} gave_up h =
      cc (success_settled ctx.has_pool is_pooled false false h)
  tells_success-EndsBy {is_pooled} {s = s} settled h =
      success_settled ctx.has_pool is_pooled (answer_of s).complete (answer_of s).reusable h

  -- An exchange tells the breaker of a success only where what the socket has given since the request was sent
  -- begins with the response that is kept: headers, not chunked, with a Content-Length and a body of exactly
  -- that length, whatever more has been read behind it; or headers without a Content-Length, with nothing read
  -- behind them, so without the body that may still follow on the connection. A read gives no more bytes than
  -- it may, and `seen` is all that a socket has ever given.
  pub exchange_succeeds :
      (seen : S → Bytes) (text : Bytes) (s : S) (is_pooled : Bool)
      → IsBounded net.read_some
      → Records net.read_some seen
      → tells_success (exchange net ctx a ssrf_exempt text (s, is_pooled)).1.1 ≡ true
      → let sent = (send_request net ctx a text s).1 in
        (x : Bytes) × (seen (answer_of sent).socket ≡ seen sent ++ ((answer_of sent).received ++ x))
        × IsAnswer (answer_of sent).received x
  exchange_succeeds seen text s is_pooled b r h =
      read_response_complete ssrf_exempt net.read_some b seen r _
        (tells_success-EndsBy (exchange_ends text s is_pooled) h)
