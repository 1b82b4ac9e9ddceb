-- ===== src/Headers/Calls/Sound.antt =====
-- What every host call keeps, shown for the calls on one header: a refused call changes nothing, and
-- no trailer map gets more entries than it has room for.
use vmod_wasm.Base.{
  ℕ, ◌≡◌, ◌≤◌, refl, inl, inr, arith, Bool, true, false, some, Option-cases, length, Bytes, bytes,
}
use vmod_wasm.Memory.{Guest, Answer, returned, failed, overrun, return_bytes}
use vmod_wasm.Headers.Trailers.{
  Trailers, max_trailers, trailer_add, trailer_remove, trailer_replace,
}
use vmod_wasm.Headers.Trailers.Room.{length-trailer_remove, trailer_add_room, trailer_replace_room}
use vmod_wasm.Headers.Maps.{
  MapType, request_headers, request_trailers, response_headers, response_trailers, grpc_initial_md,
  grpc_trailing_md, call_resp_headers, call_resp_trailers, unknown_map, HttpMsg, get_header_map,
}
use vmod_wasm.Headers.Calls.{
  Status, proxy_ok, proxy_not_found, proxy_bad_argument, proxy_internal, HeaderCtx, Varnish,
  string_arg, get_trailer_map, put_trailer_map, put_header_map, hdr_search, hdr_line, Found, no_map,
  not_there, value_is, find_value, finish, answer_value, get_value, set_line, add_at, unset_key,
  replace_at, remove_at, with_strings, add_value, replace_value, remove_value,
}

abbrev pub AllRoom : HeaderCtx → Type 0
AllRoom ctx = (length ctx.request_tm ≤ max_trailers) × (length ctx.response_tm ≤ max_trailers)

pub record IsSound (ctx : HeaderCtx) (r : HeaderCtx × Status) : Type 0 where
  pub unchanged : r.1 ≡ proxy_bad_argument → r.0 ≡ ctx
  pub all_room : AllRoom ctx → AllRoom r.0

pub refused-IsSound : (ctx : HeaderCtx) (s : Status) → IsSound ctx (ctx, s)
refused-IsSound ctx s = record { unchanged = λ e. refl; all_room = λ room. room }

pub finish-IsSound : (ctx : HeaderCtx) (r : Guest × Answer) → IsSound ctx (finish ctx r)
finish-IsSound ctx (g, returned) = record {
  unchanged = λ e. absurd (ground arith);
  all_room = λ room. room;
}
finish-IsSound ctx (g, failed) = record {
  unchanged = λ e. absurd (ground arith);
  all_room = λ room. room;
}
finish-IsSound ctx (g, overrun) = record {
  unchanged = λ e. absurd (ground arith);
  all_room = λ room. room;
}

pub put_trailer_map_room :
    (ctx : HeaderCtx) (t : MapType) (tm : Trailers)
    → length tm ≤ max_trailers
    → AllRoom ctx
    → AllRoom (put_trailer_map ctx t tm)
put_trailer_map_room ctx request_trailers tm h room = (h, room.1)
put_trailer_map_room ctx response_trailers tm h room = (room.0, h)
put_trailer_map_room ctx request_headers tm h room = room
put_trailer_map_room ctx response_headers tm h room = room
put_trailer_map_room ctx grpc_initial_md tm h room = room
put_trailer_map_room ctx grpc_trailing_md tm h room = room
put_trailer_map_room ctx call_resp_headers tm h room = room
put_trailer_map_room ctx call_resp_trailers tm h room = room
put_trailer_map_room ctx unknown_map tm h room = room

pub get_trailer_map_room :
    (ctx : HeaderCtx) (t : MapType) (tm : Trailers)
    → AllRoom ctx
    → get_trailer_map ctx t ≡ some tm
    → length tm ≤ max_trailers
get_trailer_map_room ctx request_trailers tm room e = ground arith
get_trailer_map_room ctx response_trailers tm room e = ground arith
get_trailer_map_room ctx request_headers tm room e = absurd (ground arith)
get_trailer_map_room ctx response_headers tm room e = absurd (ground arith)
get_trailer_map_room ctx grpc_initial_md tm room e = absurd (ground arith)
get_trailer_map_room ctx grpc_trailing_md tm room e = absurd (ground arith)
get_trailer_map_room ctx call_resp_headers tm room e = absurd (ground arith)
get_trailer_map_room ctx call_resp_trailers tm room e = absurd (ground arith)
get_trailer_map_room ctx unknown_map tm room e = absurd (ground arith)

-- A call that gives a trailer map new entries and is not refused.
pub put_trailer_map-IsSound :
    (ctx : HeaderCtx) (t : MapType) (old tm : Trailers)
    → get_trailer_map ctx t ≡ some old
    → (length old ≤ max_trailers → length tm ≤ max_trailers)
    → IsSound ctx (put_trailer_map ctx t tm, proxy_ok)
put_trailer_map-IsSound ctx t old tm e grows = record {
  unchanged = λ h. absurd (ground arith);
  all_room =
      λ room. put_trailer_map_room ctx t tm (grows (get_trailer_map_room ctx t old room e)) room;
}

-- A call that gives a header map a message.
pub put_header_map-IsSound :
    (ctx : HeaderCtx) (t : MapType) (msg : HttpMsg) (s : Status)
    → (s ≡ proxy_bad_argument → ⊥)
    → IsSound ctx (put_header_map ctx t msg, s)
put_header_map-IsSound ctx t msg s h = record {
  unchanged = λ e. absurd (h e);
  all_room = λ room. room;
}

answer_value-IsSound :
    (ctx : HeaderCtx) (f : Found) (ret_data ret_size : ℕ)
    → IsSound ctx (answer_value ctx f ret_data ret_size)
answer_value-IsSound ctx no_map ret_data ret_size = refused-IsSound ctx proxy_bad_argument
answer_value-IsSound ctx not_there ret_data ret_size = refused-IsSound ctx proxy_not_found
answer_value-IsSound ctx (value_is val) ret_data ret_size =
    finish-IsSound ctx (return_bytes ctx.guest (bytes val) ret_data ret_size)

set_line-IsSound :
    (v : Varnish) (ws_ok : Bool) (ctx : HeaderCtx) (t : MapType) (msg : HttpMsg) (line : Bytes)
    → IsSound ctx (set_line v ws_ok ctx t msg line)
set_line-IsSound v true ctx t msg line =
    put_header_map-IsSound ctx t (v.set_header msg line) proxy_ok (λ e. absurd (ground arith))
set_line-IsSound v false ctx t msg line =
    put_header_map-IsSound ctx t msg proxy_internal (λ e. absurd (ground arith))

add_at-IsSound :
    (v : Varnish) (is_ok : Bool) (ctx : HeaderCtx) (t : MapType) (key val : Bytes)
    → IsSound ctx (add_at v is_ok ctx t key val)
add_at-IsSound v is_ok ctx t key val = elim (Option-cases (get_trailer_map ctx t)) [
  | inr (tm, e) ↦ elim (Option-cases (trailer_add is_ok tm key val)) [
    | inl refused ↦ rw (e, refused, add_at) (refused-IsSound ctx proxy_internal)
    | inr (added, e2) ↦
        rw (e, e2, add_at)
          (put_trailer_map-IsSound ctx t tm added e
            (λ h. trailer_add_room is_ok tm key val added e2))
  ]
  | inl no_trailers ↦ elim (Option-cases (get_header_map ctx.vrt t)) [
    | inl missing ↦ rw (no_trailers, missing, add_at) (refused-IsSound ctx proxy_bad_argument)
    | inr (msg, e) ↦
        rw (no_trailers, e, add_at) (set_line-IsSound v is_ok ctx t msg (hdr_line key val))
  ]
]

replace_at-IsSound :
    (v : Varnish) (is_ok : Bool) (ctx : HeaderCtx) (t : MapType) (key val : Bytes)
    → IsSound ctx (replace_at v is_ok ctx t key val)
replace_at-IsSound v is_ok ctx t key val = elim (Option-cases (get_trailer_map ctx t)) [
  | inr (tm, e) ↦
      rw (e, replace_at)
        (put_trailer_map-IsSound ctx t tm (trailer_replace is_ok tm key val) e
          (trailer_replace_room is_ok tm key val))
  | inl no_trailers ↦ elim (Option-cases (get_header_map ctx.vrt t)) [
    | inl missing ↦ rw (no_trailers, missing, replace_at) (refused-IsSound ctx proxy_bad_argument)
    | inr (msg, e) ↦
        rw (no_trailers, e, replace_at)
          (set_line-IsSound v is_ok ctx t (unset_key v msg key) (hdr_line key val))
  ]
]

remove_at-IsSound :
    (v : Varnish) (ctx : HeaderCtx) (t : MapType) (key : Bytes)
    → IsSound ctx (remove_at v ctx t key)
remove_at-IsSound v ctx t key = elim (Option-cases (get_trailer_map ctx t)) [
  | inr (tm, e) ↦
      let l = length-trailer_remove tm key in
      rw (e, remove_at)
        (put_trailer_map-IsSound ctx t tm (trailer_remove tm key) e (λ h. omega arith))
  | inl no_trailers ↦ elim (Option-cases (get_header_map ctx.vrt t)) [
    | inl missing ↦ rw (no_trailers, missing, remove_at) (refused-IsSound ctx proxy_bad_argument)
    | inr (msg, e) ↦ elim (Option-cases (hdr_search key)) [
      | inl too_long ↦
          rw (no_trailers, e, too_long, remove_at) (refused-IsSound ctx proxy_bad_argument)
      | inr (hdr, e2) ↦
          rw (no_trailers, e, e2, remove_at)
            (put_header_map-IsSound ctx t (v.unset msg hdr) proxy_ok (λ h. absurd (ground arith)))
    ]
  ]
]

with_strings-IsSound :
    (ctx : HeaderCtx) (kp ks vp vs : ℕ) (body : Bytes → Bytes → HeaderCtx × Status)
    → ((key val : Bytes) → IsSound ctx (body key val))
    → IsSound ctx (with_strings ctx kp ks vp vs body)
with_strings-IsSound ctx kp ks vp vs body h = elim (Option-cases (string_arg ctx kp ks 256)) [
  | inl no_key ↦ rw (no_key, with_strings) (refused-IsSound ctx proxy_bad_argument)
  | inr (key, e) ↦ elim (Option-cases (string_arg ctx vp vs 4096)) [
    | inl no_val ↦ rw (e, no_val, with_strings) (refused-IsSound ctx proxy_bad_argument)
    | inr (val, e2) ↦ rw (e, e2, with_strings) (h key val)
  ]
]

pub get_value-IsSound :
    (v : Varnish) (ctx : HeaderCtx) (t : MapType) (kp ks rd rs : ℕ)
    → IsSound ctx (get_value v ctx t kp ks rd rs)
unfolding get_value
get_value-IsSound v ctx t kp ks rd rs = elim (Option-cases (string_arg ctx kp ks 256)) [
  | inl no_key ↦ rw (no_key, get_value) (refused-IsSound ctx proxy_bad_argument)
  | inr (key, e) ↦ rw (e, get_value) (answer_value-IsSound ctx (find_value v ctx t key) rd rs)
]

pub add_value-IsSound :
    (v : Varnish) (is_ok : Bool) (ctx : HeaderCtx) (t : MapType) (kp ks vp vs : ℕ)
    → IsSound ctx (add_value v is_ok ctx t kp ks vp vs)
unfolding add_value
add_value-IsSound v is_ok ctx t kp ks vp vs =
    with_strings-IsSound ctx kp ks vp vs (add_at v is_ok ctx t) (add_at-IsSound v is_ok ctx t)

pub replace_value-IsSound :
    (v : Varnish) (is_ok : Bool) (ctx : HeaderCtx) (t : MapType) (kp ks vp vs : ℕ)
    → IsSound ctx (replace_value v is_ok ctx t kp ks vp vs)
unfolding replace_value
replace_value-IsSound v is_ok ctx t kp ks vp vs =
    with_strings-IsSound ctx kp ks vp vs (replace_at v is_ok ctx t)
      (replace_at-IsSound v is_ok ctx t)

pub remove_value-IsSound :
    (v : Varnish) (ctx : HeaderCtx) (t : MapType) (kp ks : ℕ)
    → IsSound ctx (remove_value v ctx t kp ks)
unfolding remove_value
remove_value-IsSound v ctx t kp ks = elim (Option-cases (string_arg ctx kp ks 256)) [
  | inl no_key ↦ rw (no_key, remove_value) (refused-IsSound ctx proxy_bad_argument)
  | inr (key, e) ↦ rw (e, remove_value) (remove_at-IsSound v ctx t key)
]
