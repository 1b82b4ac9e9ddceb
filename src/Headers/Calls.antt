-- ===== src/Headers/Calls.antt =====
-- The host calls of src/proxy_wasm_headers.c: the context that they read and change, and
-- proxy_get_header_map_value, proxy_add_header_map_value, proxy_replace_header_map_value and
-- proxy_remove_header_map_value.
pub mod Sound
pub mod Pairs
pub mod Runs
use vmod_wasm.Base.{
  ℕ, zero, suc, ◌+◌, ◌%◌, ◌^◌, Bool, true, false, ◌&&◌, ◌||◌, List, [], ◌∷◌, ◌++◌, Option, none,
  some, leb, ◌==◌, if◌then◌else◌, length, take, Bytes, codes, bytes,
}
use vmod_wasm.Memory.{Guest, read_string, Answer, returned, failed, overrun, return_bytes}
use vmod_wasm.Headers.Trailers.{Trailers, trailer_get, trailer_add, trailer_remove, trailer_replace}
use vmod_wasm.Headers.Maps.{
  MapType, request_headers, request_trailers, response_headers, response_trailers, grpc_initial_md,
  grpc_trailing_md, call_resp_headers, call_resp_trailers, unknown_map, HttpMsg, VrtCtx,
  get_header_map,
}
use vmod_wasm.Headers.Response.{find_header}
use vmod_wasm.Http.Numbers.{skip_blanks}

-- The statuses that a guest's calls answer with. `undefined` stands for a write behind the end of the
-- guest's memory.
pub data Status : Type 0 where
  proxy_ok proxy_not_found proxy_bad_argument proxy_empty proxy_cas_mismatch proxy_internal
        undefined :
      Status

-- `response` is the raw text of the active callout's response, where there is one and it is valid.
pub record HeaderCtx : Type 0 where
  pub guest : Guest
  pub vrt : Option VrtCtx
  pub request_tm : Trailers
  pub response_tm : Trailers
  pub response : Option Bytes

-- The functions of Varnish: http_GetHdr with the value that it finds, http_Unset and http_SetHeader. A
-- header is named by an `hdr_t`: a byte with the length, the name, and a colon.
pub record Varnish : Type 0 where
  pub get_hdr : HttpMsg → Bytes → Option Bytes
  pub unset : HttpMsg → Bytes → HttpMsg
  pub set_header : HttpMsg → Bytes → HttpMsg

-- The bytes before the first NUL.
abbrev pub c_string : Bytes → Bytes
c_string [] = []
c_string (c ∷ s) = let rest = c_string s in if c == 0 then [] else c ∷ rest

-- A string argument, read into a buffer.
abbrev pub string_arg : HeaderCtx → ℕ → ℕ → ℕ → Option Bytes
string_arg ctx ptr len bufsz = elim (read_string ctx.guest ptr len bufsz) [
  | none ↦ none
  | some s ↦ some (c_string s)
]

abbrev pub get_trailer_map : HeaderCtx → MapType → Option Trailers
get_trailer_map ctx request_trailers = some ctx.request_tm
get_trailer_map ctx response_trailers = some ctx.response_tm
get_trailer_map ctx _ = none

abbrev pub put_trailer_map : HeaderCtx → MapType → Trailers → HeaderCtx
put_trailer_map ctx request_trailers tm = record ctx { request_tm = tm }
put_trailer_map ctx response_trailers tm = record ctx { response_tm = tm }
put_trailer_map ctx _ tm = ctx

-- A message changed through the pointer that pw_get_header_map_mutable answers with.
abbrev put_response : VrtCtx → HttpMsg → VrtCtx
put_response v msg = elim v.http_resp [
  | some old ↦ record v { http_resp = some msg }
  | none ↦ record v { http_beresp = some msg }
]

abbrev put_in : VrtCtx → MapType → HttpMsg → VrtCtx
put_in v request_headers msg = record v { http_req = some msg }
put_in v response_headers msg = put_response v msg
put_in v _ msg = v

abbrev pub put_header_map : HeaderCtx → MapType → HttpMsg → HeaderCtx
put_header_map ctx t msg = record ctx {
  vrt = elim ctx.vrt [ none ↦ none | some v ↦ some (put_in v t msg) ];
}

-- `snprintf(hdr_search + 1, 259, "%s:", key)`, with its answer in one byte before it; none where the
-- answer does not fit.
abbrev pub hdr_search : Bytes → Option Bytes
hdr_search key =
    let i = length key + 1 in if leb 259 i then none else some (i % 256 ∷ (key ++ codes ":"))

-- `snprintf(hdr_line, 4352, "%s: %s", key, val)`.
abbrev pub hdr_line : Bytes → Bytes → Bytes
hdr_line key val = take 4351 (key ++ (codes ": " ++ val))

-- What a lookup finds: there is no such map, no such header, or a value.
pub data Found : Type 0 where
  no_map not_there : Found
  value_is : Bytes → Found

abbrev pub of_option : Option Bytes → Found
of_option none = not_there
of_option (some val) = value_is val

abbrev pub header_value : Varnish → HttpMsg → Bytes → Found
header_value v msg key = elim (hdr_search key) [
  | none ↦ no_map
  | some hdr ↦ elim (v.get_hdr msg hdr) [ none ↦ not_there | some val ↦ value_is (skip_blanks val) ]
]

abbrev pub find_value : Varnish → HeaderCtx → MapType → Bytes → Found
find_value v ctx request_trailers key = of_option (trailer_get ctx.request_tm key)
find_value v ctx response_trailers key = of_option (trailer_get ctx.response_tm key)
find_value v ctx call_resp_headers key = elim ctx.response [
  | none ↦ not_there
  | some raw ↦ of_option (find_header raw key)
]
find_value v ctx call_resp_trailers key = not_there
find_value v ctx grpc_initial_md key = not_there
find_value v ctx grpc_trailing_md key = not_there
find_value v ctx t key = elim (get_header_map ctx.vrt t) [
  | none ↦ no_map
  | some msg ↦ header_value v msg key
]

-- The status that a return of bytes to the guest makes.
abbrev pub finish : HeaderCtx → Guest × Answer → HeaderCtx × Status
finish ctx (g, returned) = (record ctx { guest = g }, proxy_ok)
finish ctx (g, failed) = (record ctx { guest = g }, proxy_internal)
finish ctx (g, overrun) = (record ctx { guest = g }, undefined)

abbrev pub answer_value : HeaderCtx → Found → ℕ → ℕ → HeaderCtx × Status
answer_value ctx no_map ret_data ret_size = (ctx, proxy_bad_argument)
answer_value ctx not_there ret_data ret_size = (ctx, proxy_not_found)
answer_value ctx (value_is val) ret_data ret_size =
    finish ctx (return_bytes ctx.guest (bytes val) ret_data ret_size)

pub get_value : Varnish → HeaderCtx → MapType → ℕ → ℕ → ℕ → ℕ → HeaderCtx × Status
get_value v ctx t key_ptr key_size ret_data ret_size = elim (string_arg ctx key_ptr key_size 256) [
  | none ↦ (ctx, proxy_bad_argument)
  | some key ↦ answer_value ctx (find_value v ctx t key) ret_data ret_size
]

-- A new header line, behind a copy in the workspace, which there is room for or not.
abbrev pub set_line : Varnish → Bool → HeaderCtx → MapType → HttpMsg → Bytes → HeaderCtx × Status
set_line v ws_ok ctx t msg line =
    if ws_ok
    then (put_header_map ctx t (v.set_header msg line), proxy_ok)
    else (put_header_map ctx t msg, proxy_internal)

-- `is_ok` is whether the allocation, or the copy in the workspace, succeeds.
abbrev pub add_at : Varnish → Bool → HeaderCtx → MapType → Bytes → Bytes → HeaderCtx × Status
add_at v is_ok ctx t key val = elim (get_trailer_map ctx t) [
  | some tm ↦ elim (trailer_add is_ok tm key val) [
    | none ↦ (ctx, proxy_internal)
    | some added ↦ (put_trailer_map ctx t added, proxy_ok)
  ]
  | none ↦ elim (get_header_map ctx.vrt t) [
    | none ↦ (ctx, proxy_bad_argument)
    | some msg ↦ set_line v is_ok ctx t msg (hdr_line key val)
  ]
]

abbrev pub unset_key : Varnish → HttpMsg → Bytes → HttpMsg
unset_key v msg key = elim (hdr_search key) [ none ↦ msg | some hdr ↦ v.unset msg hdr ]

abbrev pub replace_at : Varnish → Bool → HeaderCtx → MapType → Bytes → Bytes → HeaderCtx × Status
replace_at v is_ok ctx t key val = elim (get_trailer_map ctx t) [
  | some tm ↦ (put_trailer_map ctx t (trailer_replace is_ok tm key val), proxy_ok)
  | none ↦ elim (get_header_map ctx.vrt t) [
    | none ↦ (ctx, proxy_bad_argument)
    | some msg ↦ set_line v is_ok ctx t (unset_key v msg key) (hdr_line key val)
  ]
]

abbrev pub remove_at : Varnish → HeaderCtx → MapType → Bytes → HeaderCtx × Status
remove_at v ctx t key = elim (get_trailer_map ctx t) [
  | some tm ↦ (put_trailer_map ctx t (trailer_remove tm key), proxy_ok)
  | none ↦ elim (get_header_map ctx.vrt t) [
    | none ↦ (ctx, proxy_bad_argument)
    | some msg ↦ elim (hdr_search key) [
      | none ↦ (ctx, proxy_bad_argument)
      | some hdr ↦ (put_header_map ctx t (v.unset msg hdr), proxy_ok)
    ]
  ]
]

-- The calls that take a key and a value read both strings first.
abbrev with_strings :
    HeaderCtx → ℕ → ℕ → ℕ → ℕ → (Bytes → Bytes → HeaderCtx × Status) → HeaderCtx × Status
with_strings ctx key_ptr key_size val_ptr val_size body =
    elim (string_arg ctx key_ptr key_size 256) [
      | none ↦ (ctx, proxy_bad_argument)
      | some key ↦ elim (string_arg ctx val_ptr val_size 4096) [
        | none ↦ (ctx, proxy_bad_argument)
        | some val ↦ body key val
      ]
    ]

unfoldable pub add_value : Varnish → Bool → HeaderCtx → MapType → ℕ → ℕ → ℕ → ℕ → HeaderCtx × Status
add_value v is_ok ctx t key_ptr key_size val_ptr val_size =
    with_strings ctx key_ptr key_size val_ptr val_size (add_at v is_ok ctx t)

pub replace_value : Varnish → Bool → HeaderCtx → MapType → ℕ → ℕ → ℕ → ℕ → HeaderCtx × Status
replace_value v is_ok ctx t key_ptr key_size val_ptr val_size =
    with_strings ctx key_ptr key_size val_ptr val_size (replace_at v is_ok ctx t)

pub remove_value : Varnish → HeaderCtx → MapType → ℕ → ℕ → HeaderCtx × Status
remove_value v ctx t key_ptr key_size = elim (string_arg ctx key_ptr key_size 256) [
  | none ↦ (ctx, proxy_bad_argument)
  | some key ↦ remove_at v ctx t key
]
