-- ===== src/Tests/HeaderMaps.antt =====
-- Trailer maps, a callout's response and a guest that calls for them.
use vmod_wasm.Base.{
  ℕ, ◌%◌, ◌^◌, ◌≡◌, refl, arith, Bool, true, List, [], ◌∷◌, ◌++◌, none, some, length, Bytes, codes,
}
use vmod_wasm.Memory.{read_string}
use vmod_wasm.Headers.Trailers.{Trailers, trailer_remove}
use vmod_wasm.Headers.Trailers.Laws.{first_named, IsRemoved, trailer_remove-IsRemoved}
use vmod_wasm.Headers.Wire.{Pair, serialize, total_size, read_spans}
use vmod_wasm.Headers.Wire.Regions.{AllInside, read_spans-AllInside}
use vmod_wasm.Headers.Maps.{request_headers, request_trailers, response_trailers}
use vmod_wasm.Headers.Response.{lines_from, find_header, response_pairs}
use vmod_wasm.Headers.Response.Lookup.{pair_get, find_header-response_pairs}
use vmod_wasm.Headers.Calls.{HeaderCtx, Varnish, add_value, proxy_ok}
use vmod_wasm.Headers.Calls.Pairs.{map_content, trailer_sizes, map_size, set_pairs}
use vmod_wasm.Headers.Calls.Pairs.Agreement.{
  content_length, map_size-map_content, set_pairs-map_content,
}
use vmod_wasm.Headers.Calls.Sound.{AllRoom}
use vmod_wasm.Headers.Calls.Runs.{
  call_add_value, call_remove_value, call_get_size, header_call, header_calls, header_call_refused,
  header_calls-AllRoom,
}
use vmod_wasm.Http.Upstream.{split_at}

abbrev trailers : Trailers
trailers =
    record { name = codes "a"; value = codes "1" }
    ∷ record { name = codes "b"; value = codes "2" }
    ∷ record { name = codes "c"; value = codes "3" }
    ∷ []

trailer_remove-IsRemoved_example :
    IsRemoved (first_named trailers (codes "A")) trailers (trailer_remove trailers (codes "A"))
trailer_remove-IsRemoved_example = trailer_remove-IsRemoved trailers (codes "A")

-- Two pairs in a region with one byte too many.
abbrev pairs : List Pair
pairs = (codes "k", codes "v") ∷ (codes "key", []) ∷ []

read_spans-AllInside_example :
    AllInside (length (serialize pairs ++ 0 ∷ [])) (read_spans 2 0 20 (serialize pairs ++ 0 ∷ []))
unfolding serialize
read_spans-AllInside_example =
    read_spans-AllInside 2 0 20 (serialize pairs ++ 0 ∷ []) (omega arith) (omega arith)

abbrev crlf : Bytes
crlf = 13 ∷ 10 ∷ []

abbrev raw : Bytes
raw = codes "HTTP/1.1 200 OK" ++ (crlf ++ (codes "Age: 7" ++ (crlf ++ (crlf ++ codes "x:"))))

find_header-response_pairs_example :
    find_header raw (codes "age") ≡ pair_get (response_pairs raw) (codes "age")
unfolding lines_from split_at
find_header-response_pairs_example =
    find_header-response_pairs raw (codes "age")
      (omega arith, omega arith, (omega arith, omega arith, (omega arith, omega arith, tt)))
      (omega arith, tt) (omega arith)

-- A Varnish without a header, whose messages never change.
abbrev varnish : Varnish
varnish = record { get_hdr = λ msg hdr. none; unset = λ msg hdr. msg; set_header = λ msg line. msg }

abbrev all_ok : ℕ → Bool
all_ok i = true

abbrev start : HeaderCtx
unfolding serialize
start = record {
  guest = record { memory = some (serialize pairs); allocator = none };
  vrt = none;
  request_tm = trailers;
  response_tm = [];
  response = none;
}

map_size-map_content_example : 40 ≡ content_length (map_content start request_trailers) % 2 ^ 32
unfolding start map_size trailer_sizes
map_size-map_content_example = map_size-map_content start request_trailers 40 tt refl

set_pairs-map_content_example :
    ((set_pairs varnish all_ok start response_trailers 0 (total_size pairs)).1 ≡ proxy_ok)
    × (map_content
          (set_pairs varnish all_ok start response_trailers 0 (total_size pairs)).0
          response_trailers
        ≡ some (serialize pairs))
unfolding serialize start
set_pairs-map_content_example =
    set_pairs-map_content varnish all_ok start response_trailers pairs (serialize pairs) 0 refl
      (omega arith) refl
      ((omega arith, omega arith, omega arith), ((omega arith, omega arith, omega arith), tt))
      (λ i. refl) refl (omega arith) (omega arith) (omega arith)

-- A key of 300 bytes.
header_call_refused_example :
    (header_call varnish start (call_add_value true request_trailers 0 300 0 2)).0 ≡ start
unfolding add_value read_string start
header_call_refused_example =
    header_call_refused varnish start (call_add_value true request_trailers 0 300 0 2) refl

header_calls-AllRoom_example : AllRoom (
    header_calls varnish start (
      call_add_value true request_trailers 20 1 22 1
      ∷ call_remove_value request_trailers 20 1
      ∷ call_get_size request_headers 0
      ∷ []))
unfolding start
header_calls-AllRoom_example =
    header_calls-AllRoom varnish start
      (call_add_value true request_trailers 20 1 22 1
        ∷ call_remove_value request_trailers 20 1
        ∷ call_get_size request_headers 0
        ∷ [])
      (omega arith, omega arith)
