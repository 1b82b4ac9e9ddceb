-- ===== src/Proxy/Bodies.antt =====
-- The buffers of src/proxy_wasm.c: pw_replace_bytes, proxy_get_buffer_bytes, proxy_set_buffer_bytes and
-- proxy_get_buffer_status. A buffer whose pointer is NULL has the length 0.
pub mod Splices
use vmod_wasm.Base.{
  ℕ, zero, suc, ◌+◌, ◌-◌, ◌%◌, ◌^◌, Bool, true, false, not, ◌&&◌, ◌||◌, List, [], ◌∷◌, ◌++◌, Option,
  none, some, ltb, ◌==◌, if◌then◌else◌, length, take, drop, Bytes, Slice, null, bytes,
}
use vmod_wasm.Memory.{
  Guest, validate_region, read_at, Answer, returned, failed, overrun, write_u32, return_bytes,
}
use vmod_wasm.Headers.Calls.{
  Status, proxy_ok, proxy_not_found, proxy_bad_argument, proxy_internal, undefined,
}
use vmod_wasm.Http.Numbers.{size_max}

-- The values of `buffer_type`, in order from 0; any other is `unknown_buffer`.
pub data BufferType : Type 0 where
  http_request_body http_response_body downstream_data upstream_data http_call_body grpc_recv_msg
        vm_configuration plugin_configuration foreign_func_args unknown_buffer :
      BufferType

-- `call_body` is none where no callout is active or its response is not valid. `modified` is none where
-- `body_modified` is 0.
pub record BodyCtx : Type 0 where
  pub guest : Guest
  pub vm_config : Option Bytes
  pub plugin_config : Option Bytes
  pub call_body : Option (Option Bytes)
  pub request_body : Option Bytes
  pub response_body : Option Bytes
  pub modified : Option (Option Bytes)

-- The part before `prefix_len`, the value, and the part from `suffix_offset` on; none is -1, and the
-- buffer that is made is NULL where it is empty.
abbrev pub join_parts : Bool → Bytes → ℕ → ℕ → Bytes → Option (Option Bytes)
join_parts malloc_ok base prefix_len suffix_offset value =
    let suffix_len = length base - suffix_offset in
    if ltb (size_max - prefix_len) (length value)
      || ltb (size_max - suffix_len) (prefix_len + length value)
    then none
    else if prefix_len + length value + suffix_len == 0
    then some none
    else if malloc_ok
    then some (some (take prefix_len base ++ (value ++ drop suffix_offset base)))
    else none

pub replace_bytes : Bool → Bytes → ℕ → ℕ → Bytes → Option (Option Bytes)
replace_bytes malloc_ok base start replace_len value =
    let prefix_len = if ltb (length base) start then length base else start in
    let removed =
      if ltb (length base - prefix_len) replace_len
      then length base - prefix_len
      else replace_len in
    join_parts malloc_ok base prefix_len (prefix_len + removed) value

-- A body, or what it has been changed to.
abbrev pub current_body : BodyCtx → Option Bytes → Option Bytes
current_body ctx own = elim ctx.modified [ none ↦ own | some body ↦ body ]

-- What a buffer type stands for: no type, none at the moment, or a buffer.
pub data Buffer : Type 0 where
  bad_type absent : Buffer
  buffer : Option Bytes → Buffer

abbrev pub buffer_of : BodyCtx → BufferType → Buffer
buffer_of ctx vm_configuration = buffer ctx.vm_config
buffer_of ctx plugin_configuration = buffer ctx.plugin_config
buffer_of ctx http_call_body = elim ctx.call_body [ none ↦ absent | some body ↦ buffer body ]
buffer_of ctx http_request_body = buffer (current_body ctx ctx.request_body)
buffer_of ctx http_response_body = buffer (current_body ctx ctx.response_body)
buffer_of ctx unknown_buffer = bad_type
buffer_of ctx _ = absent

-- The part of the data from `start` on, of `max_size` bytes at most, where that is not 0.
abbrev pub window : ℕ → ℕ → Bytes → Option Bytes
window start max_size content =
    let rest = drop start content in
    if ltb start (length content)
    then some (if ltb 0 max_size && ltb max_size (length rest) then take max_size rest else rest)
    else none

abbrev pub as_slice : Option Bytes → Slice
as_slice none = null 0
as_slice (some content) = bytes content

abbrev finish : BodyCtx → Guest × Answer → BodyCtx × Status
finish ctx (g, returned) = (record ctx { guest = g }, proxy_ok)
finish ctx (g, failed) = (record ctx { guest = g }, proxy_internal)
finish ctx (g, overrun) = (record ctx { guest = g }, undefined)

abbrev cut : ℕ → ℕ → Option Bytes → Option Bytes
cut start max_size none = none
cut start max_size (some content) = window start max_size content

pub get_buffer_bytes : BodyCtx → BufferType → ℕ → ℕ → ℕ → ℕ → BodyCtx × Status
get_buffer_bytes ctx t start max_size ret_data ret_size = elim (buffer_of ctx t) [
  | bad_type ↦ (ctx, proxy_bad_argument)
  | absent ↦ (ctx, proxy_not_found)
  | buffer content ↦
      finish ctx (return_bytes ctx.guest (as_slice (cut start max_size content)) ret_data ret_size)
]

abbrev pub text_of : Option Bytes → Bytes
text_of none = []
text_of (some content) = content

-- The bytes that a guest gives; none where they are not in its memory.
abbrev pub value_arg : Guest → ℕ → ℕ → Option Bytes
value_arg g ptr size =
    if size == 0
    then some []
    else if validate_region g.memory ptr size
    then elim g.memory [ none ↦ none | some m ↦ some (read_at m ptr size) ]
    else none

abbrev pub put_body : BodyCtx → Option (Option Bytes) → BodyCtx × Status
put_body ctx none = (ctx, proxy_internal)
put_body ctx (some body) = (record ctx { modified = some body }, proxy_ok)

abbrev pub set_buffer_to : Bool → BodyCtx → BufferType → ℕ → ℕ → Bytes → BodyCtx × Status
set_buffer_to malloc_ok ctx http_request_body start size value =
    put_body ctx
      (replace_bytes malloc_ok (text_of (current_body ctx ctx.request_body)) start size value)
set_buffer_to malloc_ok ctx http_response_body start size value =
    put_body ctx
      (replace_bytes malloc_ok (text_of (current_body ctx ctx.response_body)) start size value)
set_buffer_to malloc_ok ctx unknown_buffer start size value = (ctx, proxy_bad_argument)
set_buffer_to malloc_ok ctx _ start size value = (ctx, proxy_not_found)

pub set_buffer_bytes : Bool → BodyCtx → BufferType → ℕ → ℕ → ℕ → ℕ → BodyCtx × Status
set_buffer_bytes malloc_ok ctx t start size data_ptr data_size =
    elim (value_arg ctx.guest data_ptr data_size) [
      | none ↦ (ctx, proxy_bad_argument)
      | some value ↦ set_buffer_to malloc_ok ctx t start size value
    ]

-- The second word, for the flags, is written where the first one was.
abbrev status_flags : BodyCtx → ℕ → Guest × Answer → BodyCtx × Status
status_flags ctx ret_flags (g, failed) = (record ctx { guest = g }, proxy_bad_argument)
status_flags ctx ret_flags (g, overrun) = (record ctx { guest = g }, undefined)
status_flags ctx ret_flags (g, returned) = elim ((write_u32 g ret_flags 0).1) [
  | returned ↦ (record ctx { guest = (write_u32 g ret_flags 0).0 }, proxy_ok)
  | failed ↦ (record ctx { guest = (write_u32 g ret_flags 0).0 }, proxy_bad_argument)
  | overrun ↦ (record ctx { guest = (write_u32 g ret_flags 0).0 }, undefined)
]

pub get_buffer_status : BodyCtx → BufferType → ℕ → ℕ → BodyCtx × Status
get_buffer_status ctx t ret_size ret_flags = elim (buffer_of ctx t) [
  | bad_type ↦ (ctx, proxy_bad_argument)
  | absent ↦ (ctx, proxy_not_found)
  | buffer content ↦
      status_flags ctx ret_flags (write_u32 ctx.guest ret_size (length (text_of content) % 2 ^ 32))
]
