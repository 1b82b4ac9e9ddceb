-- ===== src/Tests/Callouts.antt =====
-- A callout to an upstream that answers, at concrete texts.
use mathlib.Core.List.{append-nil}
use vmod_wasm.Base.{
  ℕ, zero, suc, ◌+◌, ◌≤◌, ◌≡◌, refl, sym, ap, true, false, [], ◌∷◌, ◌++◌, Option, none, some,
  length, List, arith, Bytes, codes, replicate, take, drop,
}
use vmod_wasm.Base.Decimal.{decimal}
use vmod_wasm.Memory.{Guest, validate_region, read_string}
use vmod_wasm.Headers.Response.{lines_from}
use vmod_wasm.Headers.Trailers.{same_text}
use vmod_wasm.Http.Tokens.{host_ok, has_line_ctl, method_ok, path_ok, is_token_char}
use vmod_wasm.Http.Numbers.{parse_size, parse_digits, parse_port, port_digits, skip_blanks}
use vmod_wasm.Http.Upstream.{parse_upstream, with_port, split_at, check_allowed, on_list}
use vmod_wasm.Http.Requests.{default_request, request_text, request_of, build_request}
use vmod_wasm.Http.Values.{trim_end, find_value, find_header_value}
use vmod_wasm.Http.Replies.{Reply, header_end, max_response, read_head, read_response}
use vmod_wasm.Http.Replies.Reads.{IsBounded, read_head_ends}
use vmod_wasm.Http.Replies.Exact.{IsAnswer, IsReusable}
use vmod_wasm.Http.Replies.History.{Records}
use vmod_wasm.Http.Replies.Framing.{length-read_response}
use vmod_wasm.Http.Replies.Arrivals.{Delivers}
use vmod_wasm.Http.Dialing.{
  Attempt, opened, connect_loop, http_connect, Reached, http_connect-Reached,
}
use vmod_wasm.HttpPool.Addr.{Sockaddr, inet, addr_is_private, inet_is_private}
use vmod_wasm.Http.Callouts.{
  CallCtx, CallArgs, Network, conn_released, prepare, keep_reply, write_all,
}
use vmod_wasm.Http.Callouts.Exchange.{report, http_call, exchange}
use vmod_wasm.Http.Callouts.Sending.{Accepts}
use vmod_wasm.Http.Callouts.Exchange.{await_reply, send_request}
use vmod_wasm.Http.Callouts.Outcomes.{
  tally, once, tally-exchange, answer_of, exchange_reuses, exchange_succeeds,
}
use vmod_wasm.Http.Callouts.Limits.{run_calls, run_calls_within}
use vmod_wasm.Http.Callouts.Entries.{Kept, keep_reply_keeps}
use vmod_wasm.Memory.{write_u32, copy_to}
use vmod_wasm.Http.Replies.{read_rest, read_framed, read_body}
use vmod_wasm.Http.Callouts.Answers.{counted, http_call_answered}

abbrev crlf : Bytes
crlf = 13 ∷ 10 ∷ []

-- A response with a body of two bytes.
abbrev whole : Bytes
whole =
    codes "HTTP/1.1 200 OK"
    ++ (crlf ++ (codes "Content-Length: 2" ++ (crlf ++ (crlf ++ codes "ok"))))

-- A socket that gives what it holds byte by byte, and takes all that is written.
abbrev read_byte : ℕ → Bytes → Bytes × Bytes
read_byte zero s = ([], s)
read_byte (suc n) [] = ([], [])
read_byte (suc n) (c ∷ s) = (c ∷ [], s)

abbrev take_whole : Bytes → Bytes → Option ℕ × Bytes
take_whole p s = (some (length p), s)

abbrev Holding : Bytes → Bytes → Type 0
Holding s b = s ≡ b

read_byte-IsBounded : IsBounded read_byte
read_byte-IsBounded zero s = omega arith
read_byte-IsBounded (suc n) [] = omega arith
read_byte-IsBounded (suc n) (c ∷ s) = omega arith

read_byte-Delivers : Delivers read_byte Holding
read_byte-Delivers zero s b h n l = absurd (ground arith)
read_byte-Delivers (suc n) [] b h k l = absurd (omega (arith, ap length h, l))
read_byte-Delivers (suc n) (c ∷ s) b h k l =
    (c ∷ [], s, s, refl, sym h, omega arith, omega arith, refl)

take_whole-Accepts : Accepts take_whole
take_whole-Accepts [] s h = absurd (ground arith)
take_whole-Accepts (c ∷ p) s h = (length p, refl)

abbrev net : Network Bytes
net = record {
  connect = λ host port timeout_ms ssrf_exempt. some (whole, true);
  write = take_whole;
  read_some = read_byte;
  buffer_ok = true;
  entry_ok = true;
}

abbrev upstream : Bytes
upstream = codes "api.test:8080"

abbrev ctx : CallCtx
ctx = record {
  guest = record { memory = some (upstream ++ replicate 8 0); allocator = none };
  http_call_max = 2;
  http_call_count = 0;
  http_timeout_ms = 0;
  allowed_upstreams = some (upstream ∷ []);
  has_pool = true;
  http_call_next_token = 0;
  http_calls = [];
}

abbrev args : CallArgs
args = record {
  upstream_ptr = 0;
  upstream_size = 13;
  headers_ptr = 0;
  headers_size = 0;
  body_ptr = 0;
  body_size = 0;
  timeout_ms = 0;
  ret_token_ptr = 16;
}

http_call_answered_example : http_call net ctx args ≡ (
    let (ctx', status) = keep_reply true (counted ctx) 16 whole in
    (ctx', (status, conn_released true ∷ report true true)))
unfolding header_end prepare read_string validate_region parse_upstream with_port split_at host_ok
    parse_port port_digits has_line_ctl check_allowed on_list decimal build_request request_of
    method_ok path_ok is_token_char find_header_value find_value trim_end lines_from skip_blanks
    parse_size parse_digits same_text write_all
http_call_answered_example =
    http_call_answered net args Holding read_byte-Delivers take_whole-Accepts refl ctx
      (codes "api.test") 8080 true true (request_text (codes "api.test") true 0 default_request) []
      whole whole 38 2 refl refl refl refl refl refl (omega arith) refl refl refl (omega arith)

-- 10.0.0.1 and 8.8.8.8.
abbrev addresses : List Sockaddr
addresses = inet 167772161 80 ∷ inet 134744072 80 ∷ []

abbrev attempt : Sockaddr → ℕ → Attempt
attempt addr timeout_ms = opened 5

http_connect-Reached_example : Reached attempt false 1000 addresses 5
unfolding http_connect connect_loop addr_is_private inet_is_private
http_connect-Reached_example =
    http_connect-Reached attempt (λ host port. some addresses) (codes "api.test") 80 1000 false
      addresses refl refl

length-read_response_example : length (read_response read_byte true whole).received ≤ max_response
length-read_response_example = length-read_response true read_byte read_byte-IsBounded whole

read_head_ends_example : read_head read_byte 262144 [] whole ≡ read_head read_byte 300000 [] whole
read_head_ends_example =
    read_head_ends read_byte read_byte-IsBounded 262144 300000 [] whole (omega arith) (omega arith)
      (omega arith)

abbrev text : Bytes
text = request_text (codes "api.test") true 0 default_request

tally-exchange_example : tally (exchange net ctx args true text (whole, true)).1.1 ≡ once true
tally-exchange_example = tally-exchange net ctx args true text whole true

-- A socket that keeps what it has given, before what it holds.
abbrev Logged : Type 0
Logged = Bytes × Bytes

abbrev read_logged : ℕ → Logged → Bytes × Logged
read_logged zero s = ([], s)
read_logged (suc n) (given, []) = ([], (given, []))
read_logged (suc n) (given, c ∷ pending) = (c ∷ [], (given ++ (c ∷ []), pending))

abbrev given_by : Logged → Bytes
given_by s = s.0

read_logged-IsBounded : IsBounded read_logged
read_logged-IsBounded zero s = omega arith
read_logged-IsBounded (suc n) (given, []) = omega arith
read_logged-IsBounded (suc n) (given, c ∷ pending) = omega arith

read_logged-Records : Records read_logged given_by
read_logged-Records zero s = sym (append-nil s.0)
read_logged-Records (suc n) (given, []) = sym (append-nil given)
read_logged-Records (suc n) (given, c ∷ pending) = refl

abbrev logged_net : Network Logged
logged_net = record {
  connect = λ host port timeout_ms ssrf_exempt. some (([], whole), true);
  write = λ p s. (some (length p), s);
  read_some = read_logged;
  buffer_ok = true;
  entry_ok = true;
}

-- The answer of a connection that has served another response before.
abbrev logged_answer : Reply Logged
logged_answer =
    answer_of logged_net ctx args true (send_request logged_net ctx args text (codes "-", whole)).1

exchange_reuses_example :
    IsReusable true logged_answer.received
    × (given_by logged_answer.socket ≡ codes "-" ++ logged_answer.received)
unfolding exchange await_reply write_all read_response read_head read_rest read_framed read_body
    header_end find_header_value find_value trim_end lines_from skip_blanks parse_size parse_digits
    same_text split_at
exchange_reuses_example =
    exchange_reuses logged_net ctx args true given_by text (codes "-", whole) true
      read_logged-IsBounded read_logged-Records refl

exchange_succeeds_example :
    (x : Bytes) × (given_by logged_answer.socket ≡ codes "-" ++ (logged_answer.received ++ x))
    × IsAnswer logged_answer.received x
unfolding exchange await_reply write_all read_response read_head read_rest read_framed read_body
    header_end find_header_value find_value trim_end lines_from skip_blanks parse_size parse_digits
    same_text split_at
exchange_succeeds_example =
    exchange_succeeds logged_net ctx args true given_by text (codes "-", whole) true
      read_logged-IsBounded read_logged-Records refl

run_calls_within_example :
    let (ctx', n) = run_calls net (args ∷ args ∷ args ∷ []) ctx in
    (ctx'.http_call_count ≤ 2) × (0 + n ≡ ctx'.http_call_count)
run_calls_within_example =
    run_calls_within net 2 (omega arith) (omega arith) (args ∷ args ∷ args ∷ []) ctx refl
      (omega arith)

abbrev after_write : Guest
after_write = record {
  memory = some (upstream ++ (replicate 3 0 ++ (1 ∷ 0 ∷ 0 ∷ 0 ∷ 0 ∷ [])));
  allocator = none;
}

keep_reply_keeps_example :
    Kept ctx 16 whole after_write tt (omega arith) 0 (keep_reply true ctx 16 whole)
unfolding write_u32 validate_region copy_to
keep_reply_keeps_example =
    keep_reply_keeps ctx 16 whole after_write tt (omega arith) 0 (omega arith) refl

-- A socket that gives all that it holds, as far as there is room.
abbrev read_all : ℕ → Bytes → Bytes × Bytes
read_all n s = (take n s, drop n s)

-- A response whose body ends with the connection.
abbrev close_delimited : Bytes
close_delimited = codes "HTTP/1.1 200 OK" ++ (crlf ++ (crlf ++ codes "ok"))

-- Whether it is taken for complete, and then without its body, depends on how it arrives.
close_delimited_by_reads :
    ((read_response read_byte true close_delimited).complete ≡ true)
    × ((read_response read_byte true close_delimited).received ≡ take 19 close_delimited)
    × ((read_response read_all true close_delimited).complete ≡ false)
unfolding read_response read_head read_rest read_framed read_body header_end find_header_value
    find_value trim_end lines_from skip_blanks parse_size parse_digits same_text split_at
close_delimited_by_reads = (refl, refl, refl)
