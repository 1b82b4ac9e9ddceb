-- ===== src/Headers/Calls/Runs.antt =====
-- The header calls of a guest, one after the other.
use vmod_wasm.Base.{ℕ, ◌≡◌, Bool, List, [], ◌∷◌}
use vmod_wasm.Headers.Maps.{MapType}
use vmod_wasm.Headers.Calls.{
  Status, proxy_bad_argument, HeaderCtx, Varnish, get_value, add_value, replace_value, remove_value,
}
use vmod_wasm.Headers.Calls.Pairs.{get_pairs, set_pairs, get_size}
use vmod_wasm.Headers.Calls.Pairs.Refusals.{get_pairs-IsSound, set_pairs-IsSound, get_size-IsSound}
use vmod_wasm.Headers.Calls.Sound.{
  AllRoom, IsSound, get_value-IsSound, add_value-IsSound, replace_value-IsSound,
  remove_value-IsSound,
}

-- Each call with its arguments, and with what the allocations or workspace copies that it makes answer.
pub data HeaderCall : Type 0 where
  call_get_value : MapType → ℕ → ℕ → ℕ → ℕ → HeaderCall
  call_add_value : Bool → MapType → ℕ → ℕ → ℕ → ℕ → HeaderCall
  call_replace_value : Bool → MapType → ℕ → ℕ → ℕ → ℕ → HeaderCall
  call_remove_value : MapType → ℕ → ℕ → HeaderCall
  call_get_pairs : Bool → MapType → ℕ → ℕ → HeaderCall
  call_set_pairs : (ℕ → Bool) → MapType → ℕ → ℕ → HeaderCall
  call_get_size : MapType → ℕ → HeaderCall

abbrev pub header_call : Varnish → HeaderCtx → HeaderCall → HeaderCtx × Status
header_call v ctx (call_get_value t kp ks rd rs) = get_value v ctx t kp ks rd rs
header_call v ctx (call_add_value is_ok t kp ks vp vs) = add_value v is_ok ctx t kp ks vp vs
header_call v ctx (call_replace_value is_ok t kp ks vp vs) = replace_value v is_ok ctx t kp ks vp vs
header_call v ctx (call_remove_value t kp ks) = remove_value v ctx t kp ks
header_call v ctx (call_get_pairs malloc_ok t rd rs) = get_pairs malloc_ok ctx t rd rs
header_call v ctx (call_set_pairs is_ok t ptr size) = set_pairs v is_ok ctx t ptr size
header_call v ctx (call_get_size t rs) = get_size ctx t rs

pub header_calls : Varnish → HeaderCtx → List HeaderCall → HeaderCtx
header_calls v ctx [] = ctx
header_calls v ctx (c ∷ cs) = header_calls v (header_call v ctx c).0 cs

header_call-IsSound :
    (v : Varnish) (ctx : HeaderCtx) (c : HeaderCall) → IsSound ctx (header_call v ctx c)
header_call-IsSound v ctx (call_get_value t kp ks rd rs) = get_value-IsSound v ctx t kp ks rd rs
header_call-IsSound v ctx (call_add_value is_ok t kp ks vp vs) =
    add_value-IsSound v is_ok ctx t kp ks vp vs
header_call-IsSound v ctx (call_replace_value is_ok t kp ks vp vs) =
    replace_value-IsSound v is_ok ctx t kp ks vp vs
header_call-IsSound v ctx (call_remove_value t kp ks) = remove_value-IsSound v ctx t kp ks
header_call-IsSound v ctx (call_get_pairs malloc_ok t rd rs) =
    get_pairs-IsSound malloc_ok ctx t rd rs
header_call-IsSound v ctx (call_set_pairs is_ok t ptr size) =
    set_pairs-IsSound v is_ok ctx t ptr size
header_call-IsSound v ctx (call_get_size t rs) = get_size-IsSound ctx t rs

-- A header call that is answered with PROXY_BAD_ARGUMENT has changed nothing: neither a map nor the
-- guest's memory.
pub header_call_refused :
    (v : Varnish) (ctx : HeaderCtx) (c : HeaderCall)
    → (header_call v ctx c).1 ≡ proxy_bad_argument
    → (header_call v ctx c).0 ≡ ctx
header_call_refused v ctx c = (header_call-IsSound v ctx c).unchanged

-- Whatever header calls a guest makes, in whatever order and with whatever arguments, no trailer map
-- ever has more than 32 entries, the room of its array, if none has at the start.
pub header_calls-AllRoom :
    (v : Varnish) (ctx : HeaderCtx) (cs : List HeaderCall)
    → AllRoom ctx
    → AllRoom (header_calls v ctx cs)
unfolding header_calls
header_calls-AllRoom v ctx [] room = room
header_calls-AllRoom v ctx (c ∷ cs) room =
    header_calls-AllRoom v (header_call v ctx c).0 cs ((header_call-IsSound v ctx c).all_room room)
