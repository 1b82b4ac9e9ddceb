-- ===== src/Http/Requests.antt =====
-- The request that pw_proxy_http_call of src/proxy_wasm_http.c makes of a guest's serialized headers:
-- the loop over the pairs, the checks of method and path, and the text that is sent.
pub mod Blocks
use vmod_wasm.Base.{
  ℕ, zero, suc, ◌+◌, ◌-◌, ◌*◌, Bool, true, false, not, ◌&&◌, ◌||◌, List, [], ◌∷◌, ◌++◌, Option,
  none, some, ltb, leb, ◌==◌, if◌then◌else◌, length, drop, Bytes, codes, bytes_eq,
}
use vmod_wasm.Base.Decimal.{decimal}
use vmod_wasm.Headers.Wire.{word_at}
use vmod_wasm.Http.Tokens.{int_max, crlf, method_ok, path_ok, append_header}
use vmod_wasm.Memory.{Guest, validate_region, read_at}

-- The method, the path and the text in `extra_headers`.
pub record Request : Type 0 where
  pub method : Bytes
  pub path : Bytes
  pub extra : Bytes

abbrev pub default_request : Request
default_request = record { method = codes "GET"; path = codes "/"; extra = [] }

abbrev pub is_nul : Bytes → Bool
is_nul [] = false
is_nul (c ∷ cs) = c == 0

-- A text of `size` bytes at an offset of the region, with its NUL.
unfoldable pub take_text : Bytes → ℕ → ℕ → Option Bytes
take_text content offset size =
    if ltb (length content - offset) (size + 1)
    then none
    else if is_nul (drop (offset + size) content)
    then some (read_at content offset size)
    else none

abbrev pub is_plain : Bytes → Bool
is_plain [] = false
is_plain (c ∷ cs) = not (c == b':')

unfoldable pub header_step : Request → Bytes → Bytes → Option Request
header_step r key val =
    if bytes_eq key (codes ":method")
    then some (record r { method = val })
    else if bytes_eq key (codes ":path")
    then some (record r { path = val })
    else if is_plain key
    then elim (append_header 4096 r.extra key val) [
      | none ↦ none
      | some extra ↦ some (record r { extra = extra })
    ]
    else some r

-- The rounds of the loop from `i` on, `n` of them left.
unfoldable pub read_headers : ℕ → ℕ → ℕ → Bytes → Request → Option Request
read_headers zero i offset content r = some r
read_headers (suc n) i offset content r =
    let key_size = word_at content (4 + i * 8) in
    let val_size = word_at content (4 + i * 8 + 4) in
    elim (take_text content offset key_size) [
      | none ↦ none
      | some key ↦ elim (take_text content (offset + key_size + 1) val_size) [
        | none ↦ none
        | some val ↦ elim (header_step r key val) [
          | none ↦ none
          | some next ↦ read_headers n (i + 1) (offset + key_size + 1 + val_size + 1) content next
        ]
      ]
    ]

abbrev pub read_region : Bytes → Option Request
read_region content =
    let num_pairs = word_at content 0 in
    if ltb 64 num_pairs
    then none
    else if ltb (length content) (4 + num_pairs * 8)
    then none
    else read_headers num_pairs 0 (4 + num_pairs * 8) content default_request

-- None for PROXY_BAD_ARGUMENT.
unfoldable pub request_of : Guest → ℕ → ℕ → Option Request
request_of g headers_ptr headers_size =
    if headers_size == 0
    then some default_request
    else if ltb headers_size 4 || not (validate_region g.memory headers_ptr headers_size)
    then none
    else elim g.memory [ none ↦ none | some m ↦ read_region (read_at m headers_ptr headers_size) ]

abbrev pub content_length : ℕ → Bytes
content_length body_size =
    if body_size == 0 then [] else codes "Content-Length: " ++ (decimal body_size ++ crlf)

abbrev pub connection : Bool → Bytes
connection keep_alive =
    if keep_alive then codes "Connection: keep-alive" else codes "Connection: close"

abbrev pub request_text : Bytes → Bool → ℕ → Request → Bytes
request_text host keep_alive body_size r =
    r.method
    ++ (codes " "
        ++ (r.path
            ++ (codes " HTTP/1.1"
                ++ (crlf
                    ++ (codes "Host: "
                        ++ (host
                            ++ (crlf
                                ++ (content_length body_size
                                    ++ (connection keep_alive
                                        ++ (crlf ++ (r.extra ++ crlf)))))))))))

-- What the construction of the request comes to.
pub data Built : Type 0 where
  bad_argument internal_error : Built
  built : Bytes → Built

abbrev pub build_text : Bytes → Bool → ℕ → Request → Built
build_text host keep_alive body_size r =
    let text = request_text host keep_alive body_size r in
    if leb 8192 (length text) then internal_error else built text

abbrev pub check_request : Guest → Bytes → Bool → ℕ → ℕ → Request → Built
check_request g host keep_alive body_ptr body_size r =
    if not (method_ok r.method)
      || (not (path_ok r.path) || (ltb int_max (length r.method) || ltb int_max (length r.path)))
    then bad_argument
    else if ltb 0 body_size && not (validate_region g.memory body_ptr body_size)
    then bad_argument
    else build_text host keep_alive body_size r

unfoldable pub build_request : Guest → Bytes → Bool → ℕ → ℕ → ℕ → ℕ → Built
build_request g host keep_alive headers_ptr headers_size body_ptr body_size =
    elim (request_of g headers_ptr headers_size) [
      | none ↦ bad_argument
      | some r ↦ check_request g host keep_alive body_ptr body_size r
    ]
