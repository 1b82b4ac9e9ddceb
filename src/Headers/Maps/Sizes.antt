-- ===== src/Headers/Maps/Sizes.antt =====
-- The size that a guest is told is the size of what it is then given.
use vmod_wasm.Base.{
  suc, ◌+◌, ◌*◌, ◌%◌, ◌^◌, ◌≡◌, refl, sym, ap, ◌∙◌, inl, inr, arith, List, [], ◌∷◌, ◌++◌, map,
  Option, none, some, Option-cases, length, length-append, Bytes, codes,
}
use vmod_wasm.Headers.Wire.{Pair, data_size, serialize}
use vmod_wasm.Headers.Wire.RoundTrip.{length-serialize}
use vmod_wasm.Headers.Maps.{
  MapType, request_headers, request_trailers, response_headers, response_trailers, grpc_initial_md,
  grpc_trailing_md, call_resp_headers, call_resp_trailers, unknown_map, HttpMsg, header_pair,
  host_value, pseudo, pseudo_pairs, header_pairs, pseudo_size, pseudo_sizes, line_size, line_sizes,
  header_map_size,
}
use vmod_wasm.Http.Upstream.{split_at}

pub data_size-append : (ps qs : List Pair) → data_size (ps ++ qs) ≡ data_size ps + data_size qs
data_size-append [] qs = omega arith
data_size-append (p ∷ ps) qs = omega (arith, data_size-append ps qs)

pseudo-data_size :
    (key : Bytes) (o : Option Bytes) → data_size (pseudo key o) ≡ (pseudo_size key o).1
pseudo-data_size key none = refl
pseudo-data_size key (some value) = omega arith

length-pseudo : (key : Bytes) (o : Option Bytes) → length (pseudo key o) ≡ (pseudo_size key o).0
length-pseudo key none = refl
length-pseudo key (some value) = refl

line_size_lem : (l : Option Bytes) → line_size l ≡ data_size (header_pair l ∷ [])
unfolding line_size header_pair
line_size_lem none = omega arith
line_size_lem (some line) = elim (Option-cases (split_at b':' line)) [
  | inl no_colon ↦ rw (no_colon, line_size, header_pair) (omega arith)
  | inr (found, e) ↦ rw (e, line_size, header_pair) (omega arith)
]

line_sizes_lem : (hd : List (Option Bytes)) → line_sizes hd ≡ data_size (map header_pair hd)
line_sizes_lem [] = refl
line_sizes_lem (l ∷ hd) = omega (arith, line_size_lem l, line_sizes_lem hd)

length-map_lines : (hd : List (Option Bytes)) → length (map header_pair hd) ≡ length hd
length-map_lines [] = refl
length-map_lines (l ∷ hd) = ap suc (length-map_lines hd)

pseudo_sizes_lem :
    (t : MapType) (msg : HttpMsg)
    → (length (pseudo_pairs t msg) ≡ (pseudo_sizes t msg).0)
      × (data_size (pseudo_pairs t msg) ≡ (pseudo_sizes t msg).1)
pseudo_sizes_lem request_headers msg =
    let m = pseudo (codes ":method") msg.method in
    let p = pseudo (codes ":path") msg.url in
    let a = pseudo (codes ":authority") (host_value msg.hd) in
    (
      length-append m (p ++ a)
          ∙ omega (
            arith,
            length-append p a,
            length-pseudo (codes ":method") msg.method,
            length-pseudo (codes ":path") msg.url,
            length-pseudo (codes ":authority") (host_value msg.hd),
          ),
      data_size-append m (p ++ a)
          ∙ omega (
            arith,
            data_size-append p a,
            pseudo-data_size (codes ":method") msg.method,
            pseudo-data_size (codes ":path") msg.url,
            pseudo-data_size (codes ":authority") (host_value msg.hd),
          ),
    )
pseudo_sizes_lem response_headers msg =
    (length-pseudo (codes ":status") msg.status, pseudo-data_size (codes ":status") msg.status)
pseudo_sizes_lem request_trailers msg = (refl, refl)
pseudo_sizes_lem response_trailers msg = (refl, refl)
pseudo_sizes_lem grpc_initial_md msg = (refl, refl)
pseudo_sizes_lem grpc_trailing_md msg = (refl, refl)
pseudo_sizes_lem call_resp_headers msg = (refl, refl)
pseudo_sizes_lem call_resp_trailers msg = (refl, refl)
pseudo_sizes_lem unknown_map msg = (refl, refl)

-- The size that is computed for a header map without making its pairs is, in 32 bits, the number of
-- bytes of the serialized pairs: pseudo headers first, then each header line.
pub header_map_size-serialize :
    (t : MapType) (msg : HttpMsg)
    → header_map_size t msg ≡ length (serialize (header_pairs t msg)) % 2 ^ 32
unfolding header_map_size header_pairs
header_map_size-serialize t msg =
    let l = length-serialize (header_pairs t msg) in
    let n = length-append (pseudo_pairs t msg) (map header_pair msg.hd) in
    let d = data_size-append (pseudo_pairs t msg) (map header_pair msg.hd) in
    let (pn, pd) = pseudo_sizes_lem t msg in
    let e : length (serialize (header_pairs t msg))
        ≡ 4
          + (length msg.hd + (pseudo_sizes t msg).0) * 8
          + ((pseudo_sizes t msg).1 + line_sizes msg.hd) =
      omega (arith, l, n, d, pn, pd, length-map_lines msg.hd, line_sizes_lem msg.hd) in
    ap (λ x. x % 2 ^ 32) (sym e)
