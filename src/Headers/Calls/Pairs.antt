-- ===== src/Headers/Calls/Pairs.antt =====
-- The host calls of src/proxy_wasm_headers.c for a whole map: proxy_get_header_map_pairs,
-- proxy_set_header_map_pairs and proxy_get_header_map_size.
pub mod Agreement
pub mod Refusals
use vmod_wasm.Base.{
  ℕ, zero, suc, ◌+◌, ◌*◌, ◌%◌, ◌^◌, Bool, true, false, not, ◌&&◌, ◌||◌, List, [], ◌∷◌, ◌++◌, map,
  Option, none, some, ltb, leb, ◌==◌, if◌then◌else◌, length, Bytes, null, bytes,
}
use vmod_wasm.Memory.{
  Guest, validate_region, read_at, Answer, returned, failed, overrun, write_u32, return_bytes,
}
use vmod_wasm.Headers.Trailers.{TrailerEntry, Trailers, trailer_add, trailer_clear}
use vmod_wasm.Headers.Wire.{Pair, serialize, word_at, read_spans, pair_at}
use vmod_wasm.Headers.Maps.{
  MapType, request_headers, request_trailers, response_headers, response_trailers, grpc_initial_md,
  grpc_trailing_md, call_resp_headers, call_resp_trailers, unknown_map, HttpMsg, get_header_map,
  header_pairs, header_map_size, is_known_map,
}
use vmod_wasm.Headers.Response.{response_pairs, response_headers_size}
use vmod_wasm.Headers.Calls.{
  Status, proxy_ok, proxy_not_found, proxy_bad_argument, proxy_internal, undefined, HeaderCtx,
  Varnish, c_string, get_trailer_map, put_trailer_map, put_header_map, hdr_line, finish,
}

abbrev pub trailer_pair : TrailerEntry → Pair
trailer_pair e = (e.name, e.value)

abbrev pub trailer_entry : Pair → TrailerEntry
trailer_entry (key, value) = record { name = key; value = value }

-- The buffer that is made for a map, whose offsets have 32 bits, as the maps do not reach 4 GiB; none where NULL is returned in its place.
abbrev pub trailer_content : Trailers → Option Bytes
trailer_content tm = if length tm == 0 then none else some (serialize (map trailer_pair tm))

pub map_content : HeaderCtx → MapType → Option Bytes
map_content ctx request_trailers = trailer_content ctx.request_tm
map_content ctx response_trailers = trailer_content ctx.response_tm
map_content ctx call_resp_headers = elim ctx.response [
  | none ↦ none
  | some raw ↦ some (serialize (response_pairs raw))
]
map_content ctx call_resp_trailers = none
map_content ctx grpc_initial_md = none
map_content ctx grpc_trailing_md = none
map_content ctx t = elim (get_header_map ctx.vrt t) [
  | none ↦ none
  | some msg ↦ some (serialize (header_pairs t msg))
]

pub get_pairs : Bool → HeaderCtx → MapType → ℕ → ℕ → HeaderCtx × Status
get_pairs malloc_ok ctx t ret_data ret_size = elim (map_content ctx t) [
  | none ↦ finish ctx (return_bytes ctx.guest (null 0) ret_data ret_size)
  | some buf ↦
      if malloc_ok
      then finish ctx (return_bytes ctx.guest (bytes buf) ret_data ret_size)
      else (ctx, proxy_internal)
]

-- What the entries of a trailer map add to its size.
unfoldable pub trailer_sizes : Trailers → ℕ
trailer_sizes [] = 0
trailer_sizes (e ∷ es) = length e.name + 1 + length e.value + 1 + trailer_sizes es

abbrev pub trailer_map_size : Trailers → ℕ
trailer_map_size tm = if length tm == 0 then 0 else (4 + length tm * 8 + trailer_sizes tm) % 2 ^ 32

-- None for PROXY_NOT_FOUND.
unfoldable pub map_size : HeaderCtx → MapType → Option ℕ
map_size ctx request_trailers = some (trailer_map_size ctx.request_tm)
map_size ctx response_trailers = some (trailer_map_size ctx.response_tm)
map_size ctx call_resp_headers =
    some (elim ctx.response [ none ↦ 0 | some raw ↦ response_headers_size raw % 2 ^ 32 ])
map_size ctx call_resp_trailers = some 0
map_size ctx grpc_initial_md = none
map_size ctx grpc_trailing_md = none
map_size ctx t =
    some (elim (get_header_map ctx.vrt t) [ none ↦ 0 | some msg ↦ header_map_size t msg ])

abbrev pub finish_size : HeaderCtx → Guest × Answer → HeaderCtx × Status
finish_size ctx (g, returned) = (record ctx { guest = g }, proxy_ok)
finish_size ctx (g, failed) = (record ctx { guest = g }, proxy_bad_argument)
finish_size ctx (g, overrun) = (record ctx { guest = g }, undefined)

pub get_size : HeaderCtx → MapType → ℕ → HeaderCtx × Status
get_size ctx t ret_size =
    if not (is_known_map t) then (ctx, proxy_bad_argument) else elim (map_size ctx t) [
      | none ↦ (ctx, proxy_not_found)
      | some size ↦ finish_size ctx (write_u32 ctx.guest ret_size size)
    ]

-- The adds of the trailer loop, the first of them with number `i`: `alloc_ok` says which of them can
-- allocate, and what an add answers is dropped.
pub add_all : (ℕ → Bool) → ℕ → List Pair → Trailers → Trailers
add_all alloc_ok i [] tm = tm
add_all alloc_ok i ((key, val) ∷ ps) tm =
    add_all alloc_ok (i + 1) ps
      (elim (trailer_add (alloc_ok i) tm key val) [ none ↦ tm | some added ↦ added ])

-- The header loop, up to the first line that cannot be copied to the workspace.
pub set_all : Varnish → (ℕ → Bool) → ℕ → List Pair → HttpMsg → HttpMsg × Status
set_all v ws_ok i [] msg = (msg, proxy_ok)
set_all v ws_ok i ((key, val) ∷ ps) msg =
    let rest =
      set_all v ws_ok (i + 1) ps (v.set_header msg (hdr_line (c_string key) (c_string val))) in
    if ws_ok i then rest else (msg, proxy_internal)

abbrev pub put_pairs : Varnish → (ℕ → Bool) → HeaderCtx → MapType → List Pair → HeaderCtx × Status
put_pairs v is_ok ctx t ps = elim (get_trailer_map ctx t) [
  | some tm ↦ (put_trailer_map ctx t (add_all is_ok 0 ps (trailer_clear tm)), proxy_ok)
  | none ↦ elim (get_header_map ctx.vrt t) [
    | none ↦ (ctx, proxy_bad_argument)
    | some msg ↦
        let (msg2, status) = set_all v is_ok 0 ps (record msg { hd = [] }) in
        (put_header_map ctx t msg2, status)
  ]
]

-- The region of the guest's memory, behind the tests of its number of pairs.
abbrev pub put_region : Varnish → (ℕ → Bool) → HeaderCtx → MapType → Bytes → HeaderCtx × Status
put_region v is_ok ctx t content =
    let num_pairs = word_at content 0 in
    if ltb 256 num_pairs
    then (ctx, proxy_bad_argument)
    else if ltb (length content) (4 + num_pairs * 8)
    then (ctx, proxy_bad_argument)
    else put_pairs v is_ok ctx t
        (map (pair_at content) (read_spans num_pairs 0 (4 + num_pairs * 8) content))

pub set_pairs : Varnish → (ℕ → Bool) → HeaderCtx → MapType → ℕ → ℕ → HeaderCtx × Status
set_pairs v is_ok ctx t data_ptr data_size =
    if ltb data_size 4 || not (validate_region ctx.guest.memory data_ptr data_size)
    then (ctx, proxy_bad_argument)
    else elim ctx.guest.memory [
      | none ↦ (ctx, proxy_internal)
      | some m ↦ put_region v is_ok ctx t (read_at m data_ptr data_size)
    ]
