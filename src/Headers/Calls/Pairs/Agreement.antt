-- ===== src/Headers/Calls/Pairs/Agreement.antt =====
-- How the calls for a whole map agree with each other.
use vmod_wasm.Base.{
  ℕ, suc, ◌+◌, ◌*◌, ◌%◌, ◌^◌, ◌≡◌, ◌≤◌, ◌<◌, refl, sym, ap, ◌∙◌, inl, inr, arith, Bool, true, false,
  List, [], ◌∷◌, ◌++◌, map, Option, none, some, ltb, ◌==◌, Bool-cases, length, length-append, Bytes,
}
use mathlib.Core.Option.{some-injective}
use mathlib.Core.List.{append_assoc, append-nil}
use vmod_wasm.Memory.{validate_region, read_at}
use vmod_wasm.Memory.Regions.{validate_region_fits}
use vmod_wasm.Headers.Trailers.{Trailers, max_trailers, trailer_clear}
use vmod_wasm.Headers.Trailers.Lookup.{trailer_add_fits}
use vmod_wasm.Headers.Wire.{Pair, data_size, serialize, total_size}
use vmod_wasm.Headers.Wire.RoundTrip.{
  length-serialize, AllTaken, word_at-serialize, read_spans-serialize,
}
use vmod_wasm.Headers.Maps.{
  MapType, request_headers, request_trailers, response_headers, response_trailers, grpc_initial_md,
  grpc_trailing_md, call_resp_headers, call_resp_trailers, unknown_map, HttpMsg, get_header_map,
  header_pairs, header_map_size, is_trailer_map,
}
use vmod_wasm.Headers.Maps.Sizes.{header_map_size-serialize}
use vmod_wasm.Headers.Response.{response_pairs, response_headers_size}
use vmod_wasm.Headers.Response.Sizes.{response_headers_size-response_pairs}
use vmod_wasm.Headers.Calls.{proxy_ok, HeaderCtx, Varnish}
use vmod_wasm.Headers.Calls.Pairs.{
  trailer_pair, trailer_entry, trailer_content, map_content, trailer_sizes, trailer_map_size,
  map_size, add_all, put_pairs, put_region, set_pairs,
}

-- The bytes that a guest is given: none for NULL.
abbrev pub content_length : Option Bytes → ℕ
content_length none = 0
content_length (some buf) = length buf

-- A response has a status or a header.
abbrev pub HasPairs : Option Bytes → Type 0
HasPairs none = Unit {0}
HasPairs (some raw) = 0 < length (response_pairs raw)

trailer_sizes_lem : (tm : Trailers) → trailer_sizes tm ≡ data_size (map trailer_pair tm)
unfolding trailer_sizes
trailer_sizes_lem [] = refl
trailer_sizes_lem (e ∷ es) = omega (arith, trailer_sizes_lem es)

length-trailer_pairs : (tm : Trailers) → length (map trailer_pair tm) ≡ length tm
length-trailer_pairs [] = refl
length-trailer_pairs (e ∷ es) = ap suc (length-trailer_pairs es)

trailer_map_size_lem :
    (tm : Trailers) → trailer_map_size tm ≡ content_length (trailer_content tm) % 2 ^ 32
trailer_map_size_lem tm = elim (Bool-cases (length tm == 0)) [
  | inl empty ↦ rw empty (omega arith)
  | inr full ↦
      let l = length-serialize (map trailer_pair tm) in
      let e : 4 + length tm * 8 + trailer_sizes tm ≡ length (serialize (map trailer_pair tm)) =
        omega (arith, l, length-trailer_pairs tm, trailer_sizes_lem tm) in
      rw (full, e) refl
]

header_size_lem :
    (t : MapType) (hp : Option HttpMsg)
    → (elim hp [ none ↦ 0 | some msg ↦ header_map_size t msg ])
      ≡ content_length (elim hp [ none ↦ none | some msg ↦ some (serialize (header_pairs t msg)) ])
        % 2 ^ 32
header_size_lem t none = omega arith
header_size_lem t (some msg) = header_map_size-serialize t msg

response_size_lem :
    (response : Option Bytes)
    → HasPairs response
    → (elim response [ none ↦ 0 | some raw ↦ response_headers_size raw % 2 ^ 32 ])
      ≡ content_length
          (elim response [ none ↦ none | some raw ↦ some (serialize (response_pairs raw)) ])
        % 2 ^ 32
response_size_lem none h = omega arith
response_size_lem (some raw) h =
    let full : (length (response_pairs raw) == 0) ≡ false = ground arith in
    ap (λ x. x % 2 ^ 32)
      ((response_headers_size-response_pairs raw ∙ rw full refl)
        ∙ sym (length-serialize (response_pairs raw)))

-- Whatever size is told for a map is, in 32 bits, the number of bytes that are then made of its pairs,
-- 0 where NULL is returned, if the response of the active callout, where there is one, has a pair.
pub map_size-map_content :
    (ctx : HeaderCtx) (t : MapType) (size : ℕ)
    → HasPairs ctx.response
    → map_size ctx t ≡ some size
    → size ≡ content_length (map_content ctx t) % 2 ^ 32
unfolding map_size map_content
map_size-map_content ctx request_headers size h e =
    some-injective _ _ (sym e)
    ∙ header_size_lem request_headers (get_header_map ctx.vrt request_headers)
map_size-map_content ctx response_headers size h e =
    some-injective _ _ (sym e)
    ∙ header_size_lem response_headers (get_header_map ctx.vrt response_headers)
map_size-map_content ctx unknown_map size h e =
    some-injective _ _ (sym e) ∙ header_size_lem unknown_map (get_header_map ctx.vrt unknown_map)
map_size-map_content ctx request_trailers size h e =
    some-injective _ _ (sym e) ∙ trailer_map_size_lem ctx.request_tm
map_size-map_content ctx response_trailers size h e =
    some-injective _ _ (sym e) ∙ trailer_map_size_lem ctx.response_tm
map_size-map_content ctx call_resp_headers size h e =
    some-injective _ _ (sym e) ∙ response_size_lem ctx.response h
map_size-map_content ctx call_resp_trailers size h e = some-injective _ _ (sym e) ∙ omega arith
map_size-map_content ctx grpc_initial_md size h e = absurd (ground arith)
map_size-map_content ctx grpc_trailing_md size h e = absurd (ground arith)

-- All allocations of the adds succeed.
abbrev pub AllOk : (ℕ → Bool) → Type 0
AllOk is_ok = (i : ℕ) → is_ok i ≡ true

add_all_fits :
    (is_ok : ℕ → Bool) (i : ℕ) (ps : List Pair) (tm : Trailers)
    → AllOk is_ok
    → length tm + length ps ≤ max_trailers
    → add_all is_ok i ps tm ≡ tm ++ map trailer_entry ps
unfolding add_all
add_all_fits is_ok i [] tm ok room = sym (append-nil tm)
add_all_fits is_ok i ((key, val) ∷ ps) tm ok room =
    let e = trailer_entry (key, val) in
    let l = length-append tm (e ∷ []) in
    rw (ok i, trailer_add_fits tm key val (omega arith))
      (add_all_fits is_ok (i + 1) ps (tm ++ e ∷ []) ok (omega arith)
        ∙ append_assoc tm (e ∷ []) (map trailer_entry ps))

pairs_of_entries : (ps : List Pair) → map trailer_pair (map trailer_entry ps) ≡ ps
pairs_of_entries [] = refl
pairs_of_entries (p ∷ ps) = ap (◌∷◌ p) (pairs_of_entries ps)

put_region-serialize :
    (v : Varnish) (is_ok : ℕ → Bool) (ctx : HeaderCtx) (t : MapType) (ps : List Pair)
    → AllTaken ps
    → length ps ≤ 256
    → total_size ps < 2 ^ 32
    → put_region v is_ok ctx t (serialize ps) ≡ put_pairs v is_ok ctx t ps
put_region-serialize v is_ok ctx t ps taken few small =
    let l = length-serialize ps in
    let n = word_at-serialize ps (omega arith) in
    let not_many : ltb 256 (length ps) ≡ false = ground arith in
    let long : ltb (length (serialize ps)) (4 + length ps * 8) ≡ false = ground arith in
    rw (n, not_many, long, read_spans-serialize ps taken small) refl

trailer_content-entries :
    (ps : List Pair) → 0 < length ps → trailer_content (map trailer_entry ps) ≡ some (serialize ps)
trailer_content-entries [] h = absurd (omega arith)
trailer_content-entries (p ∷ ps) h =
    let full : (length (map trailer_entry (p ∷ ps)) == 0) ≡ false = ground arith in
    rw full (ap (λ qs. some (serialize (p ∷ qs))) (pairs_of_entries ps))

put_pairs-map_content :
    (v : Varnish) (is_ok : ℕ → Bool) (ctx : HeaderCtx) (t : MapType) (ps : List Pair)
    → AllOk is_ok
    → is_trailer_map t ≡ true
    → 0 < length ps
    → length ps ≤ max_trailers
    → ((put_pairs v is_ok ctx t ps).1 ≡ proxy_ok)
      × (map_content (put_pairs v is_ok ctx t ps).0 t ≡ some (serialize ps))
unfolding map_content
put_pairs-map_content v is_ok ctx request_trailers ps ok h some_there fits = (
  refl,
  rw (add_all_fits is_ok 0 ps (trailer_clear ctx.request_tm) ok (omega arith))
      (trailer_content-entries ps some_there),
)
put_pairs-map_content v is_ok ctx response_trailers ps ok h some_there fits = (
  refl,
  rw (add_all_fits is_ok 0 ps (trailer_clear ctx.response_tm) ok (omega arith))
      (trailer_content-entries ps some_there),
)
put_pairs-map_content v is_ok ctx request_headers ps ok h some_there fits = absurd (ground arith)
put_pairs-map_content v is_ok ctx response_headers ps ok h some_there fits = absurd (ground arith)
put_pairs-map_content v is_ok ctx grpc_initial_md ps ok h some_there fits = absurd (ground arith)
put_pairs-map_content v is_ok ctx grpc_trailing_md ps ok h some_there fits = absurd (ground arith)
put_pairs-map_content v is_ok ctx call_resp_headers ps ok h some_there fits = absurd (ground arith)
put_pairs-map_content v is_ok ctx call_resp_trailers ps ok h some_there fits = absurd (ground arith)
put_pairs-map_content v is_ok ctx unknown_map ps ok h some_there fits = absurd (ground arith)

-- A guest that sets a trailer map from a region of its memory with the serialized form of 1 to 32 pairs,
-- whose keys have 1 to 255 bytes and whose values have up to 4095, is answered PROXY_OK, if the
-- allocations succeed, and the buffer that is made for the map from then on has the bytes of the region.
pub set_pairs-map_content :
    (v : Varnish) (is_ok : ℕ → Bool) (ctx : HeaderCtx) (t : MapType) (ps : List Pair) (m : Bytes)
    (ptr : ℕ)
    → ctx.guest.memory ≡ some m
    → ptr + total_size ps ≤ length m
    → read_at m ptr (total_size ps) ≡ serialize ps
    → AllTaken ps
    → AllOk is_ok
    → is_trailer_map t ≡ true
    → 0 < length ps
    → length ps ≤ max_trailers
    → total_size ps < 2 ^ 32
    → ((set_pairs v is_ok ctx t ptr (total_size ps)).1 ≡ proxy_ok)
      × (map_content (set_pairs v is_ok ctx t ptr (total_size ps)).0 t ≡ some (serialize ps))
unfolding set_pairs
set_pairs-map_content v is_ok ctx t ps m ptr in_memory fits region taken ok is_tm some_there few
      small =
    let valid : validate_region (some m) ptr (total_size ps) ≡ true =
      validate_region_fits m ptr (total_size ps) fits in
    let long : ltb (total_size ps) 4 ≡ false = ground arith in
    rw
      (
        long,
        in_memory,
        valid,
        region,
        put_region-serialize v is_ok ctx t ps taken (omega arith) small,
      )
      (put_pairs-map_content v is_ok ctx t ps ok is_tm some_there few)
