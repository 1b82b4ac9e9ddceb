-- ===== src/Headers/Maps.antt =====
-- The header maps of Varnish that src/proxy_wasm_headers.c reads: pw_get_header_map,
-- pw_is_trailer_map, pw_is_known_map, the pairs that proxy_get_header_map_pairs makes of a `struct
-- http`, and the size that proxy_get_header_map_size computes for them.
pub mod Sizes
use vmod_wasm.Base.{
  ℕ, zero, suc, ◌+◌, ◌*◌, ◌%◌, ◌^◌, Bool, true, false, ◌&&◌, List, [], ◌∷◌, ◌++◌, map, Option, none,
  some, leb, if◌then◌else◌, length, Bytes, codes,
}
use vmod_wasm.Headers.Trailers.{same_text}
use vmod_wasm.Headers.Wire.{Pair}
use vmod_wasm.Http.Numbers.{skip_blanks}
use vmod_wasm.Http.Upstream.{split_at}

-- The values of `map_type`, in order from 0; any other is `unknown_map`.
pub data MapType : Type 0 where
  request_headers request_trailers response_headers response_trailers grpc_initial_md
        grpc_trailing_md call_resp_headers call_resp_trailers unknown_map :
      MapType

abbrev pub is_trailer_map : MapType → Bool
is_trailer_map request_trailers = true
is_trailer_map response_trailers = true
is_trailer_map _ = false

abbrev pub is_known_map : MapType → Bool
is_known_map unknown_map = false
is_known_map _ = true

-- The fields of Varnish's `struct http` that the code reads; `hd` is what stands from HTTP_HDR_FIRST on.
-- A line that is NULL is `none`.
pub record HttpMsg : Type 0 where
  pub method : Option Bytes
  pub url : Option Bytes
  pub status : Option Bytes
  pub hd : List (Option Bytes)

pub record VrtCtx : Type 0 where
  pub http_req : Option HttpMsg
  pub http_resp : Option HttpMsg
  pub http_beresp : Option HttpMsg

abbrev pub response_of : VrtCtx → Option HttpMsg
response_of v = elim v.http_resp [ some msg ↦ some msg | none ↦ v.http_beresp ]

pub get_header_map : Option VrtCtx → MapType → Option HttpMsg
get_header_map none t = none
get_header_map (some v) request_headers = v.http_req
get_header_map (some v) response_headers = response_of v
get_header_map (some v) _ = none

-- The key and the value of a header line.
pub header_pair : Option Bytes → Pair
header_pair none = ([], [])
header_pair (some line) = elim (split_at b':' line) [
  | none ↦ (line, [])
  | some (key, rest) ↦ (key, skip_blanks rest)
]

-- `strncasecmp(line, name, strlen(name)) == 0`.
abbrev pub has_prefix : Bytes → Bytes → Bool
has_prefix name line = leb (length name) (length line) && same_text name line

abbrev pub drop5 : Bytes → Bytes
drop5 (a ∷ b ∷ c ∷ d ∷ e ∷ line) = line
drop5 _ = []

-- The value of the first line "Host:".
pub host_value : List (Option Bytes) → Option Bytes
host_value [] = none
host_value (none ∷ hd) = host_value hd
host_value (some line ∷ hd) =
    if has_prefix (codes "Host:") line then some (skip_blanks (drop5 line)) else host_value hd

abbrev pub pseudo : Bytes → Option Bytes → List Pair
pseudo key none = []
pseudo key (some value) = (key, value) ∷ []

abbrev pub pseudo_pairs : MapType → HttpMsg → List Pair
pseudo_pairs request_headers msg =
    pseudo (codes ":method") msg.method
    ++ (pseudo (codes ":path") msg.url ++ pseudo (codes ":authority") (host_value msg.hd))
pseudo_pairs response_headers msg = pseudo (codes ":status") msg.status
pseudo_pairs _ msg = []

-- The pairs of a map in the order in which they are written.
pub header_pairs : MapType → HttpMsg → List Pair
header_pairs t msg = pseudo_pairs t msg ++ map header_pair msg.hd

-- What proxy_get_header_map_size adds for a pseudo header: a number of headers and of bytes.
abbrev pub pseudo_size : Bytes → Option Bytes → ℕ × ℕ
pseudo_size key none = (0, 0)
pseudo_size key (some value) = (1, length key + 1 + length value + 1)

abbrev pub add_sizes : ℕ × ℕ → ℕ × ℕ → ℕ × ℕ
add_sizes (a, b) (c, d) = (a + c, b + d)

abbrev pub pseudo_sizes : MapType → HttpMsg → ℕ × ℕ
pseudo_sizes request_headers msg = add_sizes (pseudo_size (codes ":method") msg.method) (
    add_sizes (pseudo_size (codes ":path") msg.url)
      (pseudo_size (codes ":authority") (host_value msg.hd)))
pseudo_sizes response_headers msg = pseudo_size (codes ":status") msg.status
pseudo_sizes _ msg = (0, 0)

pub line_size : Option Bytes → ℕ
line_size none = 2
line_size (some line) = elim (split_at b':' line) [
  | none ↦ length line + 2
  | some (key, rest) ↦ length key + 1 + length (skip_blanks rest) + 1
]

abbrev pub line_sizes : List (Option Bytes) → ℕ
line_sizes [] = 0
line_sizes (l ∷ hd) = line_size l + line_sizes hd

-- Sums of 32 bits.
pub header_map_size : MapType → HttpMsg → ℕ
header_map_size t msg =
    let (num, size) = pseudo_sizes t msg in
    (4 + (length msg.hd + num) * 8 + (size + line_sizes msg.hd)) % 2 ^ 32
