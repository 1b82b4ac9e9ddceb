-- ===== src/Http/Callouts.antt =====
-- pw_proxy_http_call of src/proxy_wasm_http.c: the limits and checks of a callout, its connection, the sending
-- of the request, and the response's entry in the context. The network is a parameter.
pub mod Exchange
pub mod Sending
pub mod Outcomes
pub mod Limits
pub mod Entries
pub mod Counting
pub mod Answers
use vmod_wasm.Base.{
  ℕ, zero, suc, ◌+◌, ◌-◌, ◌%◌, ◌^◌, Bool, true, false, not, ◌&&◌, ◌||◌, List, [], ◌∷◌, ◌++◌, Option,
  none, some, ltb, leb, ◌==◌, if◌then◌else◌, length, take, drop, Bytes,
}
use vmod_wasm.Memory.{Guest, read_string, read_at, write_u32, Answer, returned, failed, overrun}
use vmod_wasm.Http.Upstream.{parse_upstream, check_allowed}
use vmod_wasm.Http.Requests.{Built, bad_argument, internal_error, built, build_request}
use vmod_wasm.Http.Replies.{
  starts_blank_line, ReplyStatus, reply_ok, reply_internal, reply_parse_failure,
  reply_unimplemented, Reply, read_response,
}

-- The statuses that the call returns; `call_undefined` where C leaves the behaviour undefined.
pub data CallStatus : Type 0 where
  call_ok call_bad_argument call_internal call_parse_failure call_unimplemented call_undefined :
      CallStatus

abbrev pub status_of : ReplyStatus → CallStatus
status_of reply_ok = call_ok
status_of reply_internal = call_internal
status_of reply_parse_failure = call_parse_failure
status_of reply_unimplemented = call_unimplemented

-- A response that is kept for the module; its body is none where the pointer is NULL.
pub record CallEntry : Type 0 where
  pub token_id : ℕ
  pub raw : Bytes
  pub body : Option Bytes
  pub num_headers : ℕ

-- `has_pool` is true where the engine has an HTTP pool.
pub record CallCtx : Type 0 where
  pub guest : Guest
  pub http_call_max : ℕ
  pub http_call_count : ℕ
  pub http_timeout_ms : ℕ
  pub allowed_upstreams : Option (List Bytes)
  pub has_pool : Bool
  pub http_call_next_token : ℕ
  pub http_calls : List CallEntry

-- The arguments that the call reads.
pub record CallArgs : Type 0 where
  pub upstream_ptr : ℕ
  pub upstream_size : ℕ
  pub headers_ptr : ℕ
  pub headers_size : ℕ
  pub body_ptr : ℕ
  pub body_size : ℕ
  pub timeout_ms : ℕ
  pub ret_token_ptr : ℕ

-- What the call does to its connection and to the circuit breaker.
pub data Effect : Type 0 where
  conn_released : Bool → Effect
  conn_closed fd_closed success_reported failure_reported : Effect

-- The network: `connect` takes the host, the port, the timeout and `ssrf_exempt`, and gives the socket and
-- whether it is one of the pool. `write` gives the number of bytes that it has written, none where it
-- fails; it and `read_some` have been tried again where they were interrupted. Each malloc can fail.
pub record Network (S : Type 0) : Type 0 where
  pub connect : Bytes → ℕ → ℕ → Bool → Option (S × Bool)
  pub write : Bytes → S → Option ℕ × S
  pub read_some : ℕ → S → Bytes × S
  pub buffer_ok : Bool
  pub entry_ok : Bool

-- True where the call is over the limit of its request.
abbrev pub is_limited : CallCtx → Bool
is_limited ctx = ltb 0 ctx.http_call_max && leb ctx.http_call_max ctx.http_call_count

unfoldable pub effective_timeout : ℕ → ℕ → ℕ
effective_timeout own configured =
    let chosen = if own == 0 then configured else own in
    let given = if chosen == 0 then 5000 else chosen in if ltb 30000 given then 30000 else given

-- What is left to write behind a call of write, none where it fails or has written nothing.
abbrev pub left_over : Bytes → Option ℕ → Option Bytes
left_over p none = none
left_over p (some zero) = none
left_over p (some (suc n)) = some (drop (suc n) p)

-- The loop after a write.
abbrev pub go_on : {S : Type 0} → Option Bytes → S → (Bytes → S → Bool × S) → Bool × S
go_on none s f = (false, s)
go_on (some rest) s f = f rest s

-- The bytes that a call of pw_http_write_all sends: each round writes a byte at least, so a round for each
-- byte is enough.
unfoldable pub write_all : {S : Type 0} → (Bytes → S → Option ℕ × S) → ℕ → Bytes → S → Bool × S
write_all write zero [] s = (true, s)
write_all write zero (c ∷ cs) s = (false, s)
write_all write (suc fuel) [] s = (true, s)
write_all write (suc fuel) (c ∷ cs) s =
    let (n, s') = write (c ∷ cs) s in
    go_on (left_over (c ∷ cs) n) s' (λ rest t. write_all write fuel rest t)

-- The offset of the first CRLF CRLF of a buffer, whatever its bytes are.
unfoldable pub blank_line_at : Bytes → Option ℕ
blank_line_at [] = none
blank_line_at (c ∷ cs) =
    let later = blank_line_at cs in
    if starts_blank_line (c ∷ cs)
    then some 0
    else elim later [ none ↦ none | some n ↦ some (suc n) ]

abbrev pub skip_line : Bytes → Bytes
skip_line [] = []
skip_line (c ∷ cs) = let rest = skip_line cs in if c == 10 then cs else rest

-- The rounds of the loop that counts lines: each one takes a byte at least.
unfoldable pub count_lines : ℕ → Bytes → ℕ
count_lines fuel [] = 0
count_lines zero (c ∷ cs) = 0
count_lines (suc fuel) (c ∷ cs) = suc (count_lines fuel (skip_line (c ∷ cs)))

-- The lines behind the status line.
unfoldable pub count_headers : Bytes → ℕ
count_headers text = let rest = skip_line text in count_lines (length rest) rest

abbrev pub entry_from : ℕ → Bytes → Option ℕ → CallEntry
entry_from token raw none = record { token_id = token; raw = raw; body = none; num_headers = 0 }
entry_from token raw (some i) = record {
  token_id = token;
  raw = raw;
  body = some (drop (i + 4) raw);
  num_headers = if i == 0 then 0 else count_headers (take i raw);
}

unfoldable pub entry_of : ℕ → Bytes → CallEntry
entry_of token raw = entry_from token raw (blank_line_at raw)

abbrev pub has_entry : ℕ → List CallEntry → Bool
has_entry token [] = false
has_entry token (e ∷ es) = if token == e.token_id then true else has_entry token es

-- VRBT_INSERT changes nothing where there is an entry with the token.
abbrev pub insert_entry : CallEntry → List CallEntry → List CallEntry
insert_entry e es = if has_entry e.token_id es then es else e ∷ es

-- VRBT_REMOVE, of an entry that has been inserted.
abbrev pub remove_entry : ℕ → List CallEntry → List CallEntry
remove_entry token [] = []
remove_entry token (e ∷ es) =
    let rest = remove_entry token es in if token == e.token_id then rest else e ∷ rest

abbrev pub write_token : CallCtx → ℕ → Guest × Answer → CallCtx × CallStatus
write_token ctx token (g, returned) = (record ctx { guest = g }, call_ok)
write_token ctx token (g, failed) =
    (record ctx { guest = g; http_calls = remove_entry token ctx.http_calls }, call_internal)
write_token ctx token (g, overrun) = (record ctx { guest = g }, call_undefined)

abbrev pub with_entry : CallCtx → ℕ → Bytes → CallCtx
with_entry ctx token raw = record ctx {
  http_call_next_token = token;
  http_calls = insert_entry (entry_of token raw) ctx.http_calls;
}

-- The next token of a context, an unsigned number of 32 bits.
abbrev pub next_token : CallCtx → ℕ
next_token ctx = (ctx.http_call_next_token + 1) % 2 ^ 32

-- The response is kept under a new token, which the module gets.
unfoldable pub keep_reply : Bool → CallCtx → ℕ → Bytes → CallCtx × CallStatus
keep_reply entry_ok ctx ret_token_ptr raw =
    if entry_ok
    then write_token (with_entry ctx (next_token ctx) raw) (next_token ctx)
        (write_u32 ctx.guest ret_token_ptr (next_token ctx))
    else (record ctx { http_call_next_token = next_token ctx }, call_internal)

-- What an upstream comes to: the status with which the call is refused, or the host, the port, the answer of
-- the allowlist and the text of the request.
pub data Prepared : Type 0 where
  refused : CallStatus → Prepared
  ready : Bytes → ℕ → Bool → Bytes → Prepared

abbrev pub prepared : Bytes → ℕ → Bool → Built → Prepared
prepared host port ssrf_exempt bad_argument = refused call_bad_argument
prepared host port ssrf_exempt internal_error = refused call_internal
prepared host port ssrf_exempt (built text) = ready host port ssrf_exempt text

abbrev pub prepare_for : CallCtx → CallArgs → Bytes → ℕ → Option Bool → Prepared
prepare_for ctx a host port none = refused call_bad_argument
prepare_for ctx a host port (some ssrf_exempt) = prepared host port ssrf_exempt (
    build_request ctx.guest host (ctx.has_pool && ssrf_exempt) a.headers_ptr a.headers_size
      a.body_ptr a.body_size)

abbrev pub prepare_upstream : CallCtx → CallArgs → Option (Bytes × ℕ) → Prepared
prepare_upstream ctx a none = refused call_bad_argument
prepare_upstream ctx a (some (host, port)) =
    prepare_for ctx a host port (check_allowed ctx.allowed_upstreams host port)

abbrev pub prepare_text : CallCtx → CallArgs → Option Bytes → Prepared
prepare_text ctx a none = refused call_bad_argument
prepare_text ctx a (some upstream) = prepare_upstream ctx a (parse_upstream 256 upstream)

unfoldable pub prepare : CallCtx → CallArgs → Prepared
prepare ctx a = prepare_text ctx a (read_string ctx.guest a.upstream_ptr a.upstream_size 256)

-- The body's bytes, none where the module has no memory.
abbrev pub body_bytes : CallCtx → CallArgs → Option Bytes
body_bytes ctx a = elim ctx.guest.memory [
  | none ↦ none
  | some m ↦ some (read_at m a.body_ptr a.body_size)
]
