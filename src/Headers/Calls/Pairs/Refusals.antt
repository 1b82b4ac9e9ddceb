-- ===== src/Headers/Calls/Pairs/Refusals.antt =====
-- What the calls for a whole map keep.
use vmod_wasm.Base.{
  ℕ, ◌+◌, ◌*◌, ◌≡◌, ◌≤◌, refl, inl, inr, arith, Bool, not, ◌||◌, List, [], ◌∷◌, Option, none, some,
  Option-cases, ltb, Bool-cases, length, Bytes, null, bytes,
}
use vmod_wasm.Memory.{
  Guest, Answer, returned, failed, overrun, validate_region, read_at, write_u32, return_bytes,
}
use vmod_wasm.Memory.Regions.{write_u32_refused}
use vmod_wasm.Headers.Trailers.{Trailers, max_trailers, trailer_add, trailer_clear}
use vmod_wasm.Headers.Trailers.Room.{trailer_add_room}
use vmod_wasm.Headers.Wire.{Pair, word_at}
use vmod_wasm.Headers.Maps.{MapType, HttpMsg, get_header_map, is_known_map}
use vmod_wasm.Headers.Calls.{
  proxy_not_found, proxy_bad_argument, proxy_internal, HeaderCtx, Varnish, c_string,
  get_trailer_map, hdr_line,
}
use vmod_wasm.Headers.Calls.Sound.{
  IsSound, refused-IsSound, finish-IsSound, put_trailer_map-IsSound, put_header_map-IsSound,
}
use vmod_wasm.Headers.Calls.Pairs.{
  map_content, get_pairs, map_size, finish_size, get_size, add_all, set_all, put_pairs, put_region,
  set_pairs,
}

add_all_room :
    (is_ok : ℕ → Bool) (i : ℕ) (ps : List Pair) (tm : Trailers)
    → length tm ≤ max_trailers
    → length (add_all is_ok i ps tm) ≤ max_trailers
unfolding add_all
add_all_room is_ok i [] tm h = h
add_all_room is_ok i ((key, val) ∷ ps) tm h =
    elim (Option-cases (trailer_add (is_ok i) tm key val)) [
      | inl no_room ↦ rw no_room (add_all_room is_ok (i + 1) ps tm h)
      | inr (added, e) ↦
          rw e (add_all_room is_ok (i + 1) ps added (trailer_add_room (is_ok i) tm key val added e))
    ]

set_all-status :
    (v : Varnish) (ws_ok : ℕ → Bool) (i : ℕ) (ps : List Pair) (msg : HttpMsg)
    → (set_all v ws_ok i ps msg).1 ≡ proxy_bad_argument
    → ⊥
unfolding set_all
set_all-status v ws_ok i [] msg h = absurd (ground arith)
set_all-status v ws_ok i ((key, val) ∷ ps) msg h = elim (Bool-cases (ws_ok i)) [
  | inl ok ↦
      set_all-status v ws_ok (i + 1) ps (v.set_header msg (hdr_line (c_string key) (c_string val)))
        (rw ok at h)
  | inr failing ↦ let h2 = rw failing at h in absurd (ground arith)
]

put_pairs-IsSound :
    (v : Varnish) (is_ok : ℕ → Bool) (ctx : HeaderCtx) (t : MapType) (ps : List Pair)
    → IsSound ctx (put_pairs v is_ok ctx t ps)
put_pairs-IsSound v is_ok ctx t ps = elim (Option-cases (get_trailer_map ctx t)) [
  | inr (tm, e) ↦
      rw (e, put_pairs)
        (put_trailer_map-IsSound ctx t tm (add_all is_ok 0 ps (trailer_clear tm)) e
          (λ h. add_all_room is_ok 0 ps (trailer_clear tm) (omega arith)))
  | inl no_trailers ↦ elim (Option-cases (get_header_map ctx.vrt t)) [
    | inl missing ↦ rw (no_trailers, missing, put_pairs) (refused-IsSound ctx proxy_bad_argument)
    | inr (msg, e) ↦
        let empty = record msg { hd = [] } in
        let r = set_all v is_ok 0 ps empty in
        rw (no_trailers, e, put_pairs)
          (put_header_map-IsSound ctx t r.0 r.1 (set_all-status v is_ok 0 ps empty))
  ]
]

put_region-IsSound :
    (v : Varnish) (is_ok : ℕ → Bool) (ctx : HeaderCtx) (t : MapType) (content : Bytes)
    → IsSound ctx (put_region v is_ok ctx t content)
put_region-IsSound v is_ok ctx t content = elim (Bool-cases (ltb 256 (word_at content 0))) [
  | inl many ↦ rw (many, put_region) (refused-IsSound ctx proxy_bad_argument)
  | inr few ↦ elim (Bool-cases (ltb (length content) (4 + word_at content 0 * 8))) [
    | inl short ↦ rw (few, short, put_region) (refused-IsSound ctx proxy_bad_argument)
    | inr long ↦ rw (few, long, put_region) (put_pairs-IsSound v is_ok ctx t _)
  ]
]

in_memory-IsSound :
    (v : Varnish) (is_ok : ℕ → Bool) (ctx : HeaderCtx) (t : MapType) (ptr size : ℕ)
    (memory : Option Bytes)
    → IsSound ctx (elim memory [
      | none ↦ (ctx, proxy_internal)
      | some m ↦ put_region v is_ok ctx t (read_at m ptr size)
    ])
in_memory-IsSound v is_ok ctx t ptr size none = refused-IsSound ctx proxy_internal
in_memory-IsSound v is_ok ctx t ptr size (some m) =
    put_region-IsSound v is_ok ctx t (read_at m ptr size)

pub set_pairs-IsSound :
    (v : Varnish) (is_ok : ℕ → Bool) (ctx : HeaderCtx) (t : MapType) (ptr size : ℕ)
    → IsSound ctx (set_pairs v is_ok ctx t ptr size)
unfolding set_pairs
set_pairs-IsSound v is_ok ctx t ptr size =
    elim (Bool-cases (ltb size 4 || not (validate_region ctx.guest.memory ptr size))) [
      | inl bad ↦ rw (bad, set_pairs) (refused-IsSound ctx proxy_bad_argument)
      | inr good ↦ rw (good, set_pairs) (in_memory-IsSound v is_ok ctx t ptr size ctx.guest.memory)
    ]

pub get_pairs-IsSound :
    (malloc_ok : Bool) (ctx : HeaderCtx) (t : MapType) (rd rs : ℕ)
    → IsSound ctx (get_pairs malloc_ok ctx t rd rs)
unfolding get_pairs
get_pairs-IsSound malloc_ok ctx t rd rs = elim (Option-cases (map_content ctx t)) [
  | inl nothing ↦
      rw (nothing, get_pairs) (finish-IsSound ctx (return_bytes ctx.guest (null 0) rd rs))
  | inr (buf, e) ↦ elim (Bool-cases malloc_ok) [
    | inl ok ↦ rw (e, ok, get_pairs) (finish-IsSound ctx (return_bytes ctx.guest (bytes buf) rd rs))
    | inr failing ↦ rw (e, failing, get_pairs) (refused-IsSound ctx proxy_internal)
  ]
]

finish_size-IsSound :
    (ctx : HeaderCtx) (r : Guest × Answer)
    → (r.1 ≡ failed → r.0 ≡ ctx.guest)
    → IsSound ctx (finish_size ctx r)
finish_size-IsSound ctx (g, returned) h = record {
  unchanged = λ e. absurd (ground arith);
  all_room = λ room. room;
}
finish_size-IsSound ctx (g, failed) h = record {
  unchanged = λ e. rw (h refl) refl;
  all_room = λ room. room;
}
finish_size-IsSound ctx (g, overrun) h = record {
  unchanged = λ e. absurd (ground arith);
  all_room = λ room. room;
}

pub get_size-IsSound : (ctx : HeaderCtx) (t : MapType) (rs : ℕ) → IsSound ctx (get_size ctx t rs)
unfolding get_size
get_size-IsSound ctx t rs = elim (Bool-cases (is_known_map t)) [
  | inr unknown ↦ rw (unknown, get_size) (refused-IsSound ctx proxy_bad_argument)
  | inl known ↦ elim (Option-cases (map_size ctx t)) [
    | inl no_size ↦ rw (known, no_size, get_size) (refused-IsSound ctx proxy_not_found)
    | inr (size, e) ↦
        rw (known, e, get_size)
          (finish_size-IsSound ctx (write_u32 ctx.guest rs size)
            (write_u32_refused ctx.guest rs size))
  ]
]
