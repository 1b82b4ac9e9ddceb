-- ===== src/Http/Replies.antt =====
-- How pw_proxy_http_call of src/proxy_wasm_http.c reads an upstream's response and finds where it ends. The
-- socket is a parameter: the bytes that a read of at most so many bytes gives, none of them at the end of
-- the stream or where it fails, and the socket after it.
pub mod Reads
pub mod Ends
pub mod Exact
pub mod History
pub mod Framing
pub mod Arrivals
pub mod Delivered
use vmod_wasm.Base.{
  ℕ, zero, suc, ◌+◌, ◌-◌, Bool, true, false, not, ◌&&◌, ◌||◌, List, [], ◌∷◌, ◌++◌, Option, none,
  some, ltb, ◌==◌, if◌then◌else◌, length, take, Bytes, codes, bytes_eq,
}
use vmod_wasm.Http.Values.{find_header_value, value_has_token}
use vmod_wasm.Http.Numbers.{parse_size}

-- PW_HTTP_MAX_RESPONSE.
abbrev pub max_response : ℕ
max_response = 262144

abbrev pub starts_blank_line : Bytes → Bool
starts_blank_line (a ∷ b ∷ c ∷ d ∷ _) = a == 13 && b == 10 && c == 13 && d == 10
starts_blank_line _ = false

abbrev pub end_from : Bool → Bool → Option ℕ → Option ℕ
end_from true is_nul later = some 4
end_from false true later = none
end_from false false none = none
end_from false false (some n) = some (suc n)

-- The offset behind the first CRLF CRLF that strstr finds, which sees no byte from the first NUL on.
unfoldable pub header_end : Bytes → Option ℕ
header_end [] = none
header_end (c ∷ cs) = end_from (starts_blank_line (c ∷ cs)) (c == 0) (header_end cs)

-- What the first loop leaves: the end of the headers, the buffer and the socket.
pub record Head (S : Type 0) : Type 0 where
  pub ends_at : Option ℕ
  pub received : Bytes
  pub socket : S

-- A round of a loop: it leaves the loop with a result, or goes on with a buffer.
pub data Round (S A : Type 0) : Type 0 where
  stopped : A → Round S A
  again : Bytes → S → Round S A

-- A loop after one of its rounds.
abbrev pub follow : {S A : Type 0} → Round S A → (Bytes → S → A) → A
follow (stopped a) f = a
follow (again buf s) f = f buf s

abbrev pub seen_end : {S : Type 0} → Option ℕ → Bytes → S → Round S (Head S)
seen_end none buf s = again buf s
seen_end (some n) buf s = stopped (record { ends_at = some n; received = buf; socket = s })

-- What the second loop leaves.
pub record Rest (S : Type 0) : Type 0 where
  pub body_need : ℕ
  pub received : Bytes
  pub socket : S

pub data ReplyStatus : Type 0 where
  reply_ok reply_internal reply_parse_failure reply_unimplemented : ReplyStatus

pub record Reply (S : Type 0) : Type 0 where
  pub status : ReplyStatus
  pub complete : Bool
  pub reusable : Bool
  pub received : Bytes
  pub socket : S

abbrev pub has_token : Bytes → Bytes → Bytes → Bool
has_token headers name token = elim (find_header_value headers name) [
  | none ↦ false
  | some value ↦ elim (value_has_token value token) [ none ↦ false | some found ↦ found ]
]

abbrev pub is_http11 : Bytes → Bool
is_http11 received = bytes_eq (take 8 received) (codes "HTTP/1.1")

abbrev pub is_chunked : Bytes → Bool
is_chunked headers = has_token headers (codes "Transfer-Encoding") (codes "chunked")

abbrev pub is_closing : Bytes → Bool
is_closing headers = has_token headers (codes "Connection") (codes "close")

-- The length that the headers give: none at all, none that can be read, or a number.
pub data Framed : Type 0 where
  unframed unreadable : Framed
  framed : ℕ → Framed

abbrev pub read_length : Option ℕ → Framed
read_length none = unreadable
read_length (some n) = framed n

abbrev pub framing : Bytes → Framed
framing headers = elim (find_header_value headers (codes "Content-Length")) [
  | none ↦ unframed
  | some value ↦ read_length (parse_size value)
]

abbrev pub incomplete : {S : Type 0} → ReplyStatus → Bytes → S → Reply S
incomplete status received s = record {
  status = status;
  complete = false;
  reusable = false;
  received = received;
  socket = s;
}

abbrev pub completed : {S : Type 0} → Bool → Bytes → S → Reply S
completed reusable received s = record {
  status = reply_ok;
  complete = true;
  reusable = reusable;
  received = received;
  socket = s;
}

-- The end of the headers is looked for after each read that gives bytes.
abbrev pub look_for_end : {S : Type 0} → Bytes → Bytes × S → Round S (Head S)
look_for_end buf ([], s) = stopped (record { ends_at = none; received = buf; socket = s })
look_for_end buf (c ∷ cs, s) = seen_end (header_end (buf ++ (c ∷ cs))) (buf ++ (c ∷ cs)) s

abbrev pub add_body : {S : Type 0} → ℕ → Bytes → Bytes × S → Round S (Rest S)
add_body need buf ([], s) = stopped (record { body_need = need; received = buf; socket = s })
add_body need buf (c ∷ cs, s) = again (buf ++ (c ∷ cs)) s

abbrev pub finish_body : {S : Type 0} → Bool → Rest S → Reply S
finish_body reusable rest =
    if rest.body_need == 0
    then completed reusable rest.received rest.socket
    else incomplete reply_internal rest.received rest.socket

module _ {S : Type 0} (read_some : ℕ → S → Bytes × S) where
  abbrev pub head_round : Bytes → S → Round S (Head S)
  head_round buf s =
      if ltb (length buf) max_response
      then look_for_end buf (read_some (max_response - length buf) s)
      else stopped (record { ends_at = none; received = buf; socket = s })

  -- The first loop: each round that goes on adds a byte, so one round for each byte of room is enough.
  unfoldable pub read_head : ℕ → Bytes → S → Head S
  read_head zero buf s = record { ends_at = none; received = buf; socket = s }
  read_head (suc fuel) buf s = follow (head_round buf s) (λ buf' s'. read_head fuel buf' s')

  abbrev pub body_round : ℕ → Bytes → S → Round S (Rest S)
  body_round need buf s =
      let room = max_response - length buf in
      if need == 0 || room == 0
      then stopped (record { body_need = need; received = buf; socket = s })
      else add_body need buf (read_some (if ltb need room then need else room) s)

  -- The second loop: each round that goes on adds a byte that is needed, so one round for each is enough.
  unfoldable pub read_body : ℕ → ℕ → Bytes → S → Rest S
  read_body zero need buf s = record { body_need = need; received = buf; socket = s }
  read_body (suc fuel) need buf s =
      follow (body_round need buf s)
        (λ buf' s'. read_body fuel (need - (length buf' - length buf)) buf' s')

  -- A response with `content_length` bytes behind the headers, some of which have been received.
  unfoldable pub read_framed : Bool → ℕ → ℕ → Bytes → S → Reply S
  read_framed reusable header_bytes content_length buf s =
      let body_have = length buf - header_bytes in
      let need = content_length - body_have in
      if ltb (max_response - header_bytes) content_length
      then incomplete reply_internal buf s
      else if ltb content_length body_have
      then completed false (take (header_bytes + content_length) buf) s
      else finish_body reusable (read_body need need buf s)

  abbrev pub read_as : Bool → ℕ → Framed → Bytes → S → Reply S
  read_as reusable header_bytes unreadable buf s = incomplete reply_parse_failure buf s
  read_as reusable header_bytes (framed n) buf s = read_framed reusable header_bytes n buf s
  read_as reusable header_bytes unframed buf s =
      if length buf == header_bytes
      then completed false buf s
      else incomplete reply_parse_failure buf s

  unfoldable pub read_rest : Bool → ℕ → Bytes → S → Reply S
  read_rest ssrf_exempt header_bytes buf s =
      let headers = take header_bytes buf in
      if is_chunked headers
      then incomplete reply_unimplemented buf s
      else read_as (is_http11 buf && not (is_closing headers) && ssrf_exempt) header_bytes
          (framing headers) buf s

  abbrev pub read_after : Bool → Head S → Reply S
  read_after ssrf_exempt head = elim head.ends_at [
    | none ↦ incomplete reply_parse_failure head.received head.socket
    | some n ↦ read_rest ssrf_exempt n head.received head.socket
  ]

  unfoldable pub read_response : Bool → S → Reply S
  read_response ssrf_exempt s = read_after ssrf_exempt (read_head max_response [] s)
