-- ===== src/Delivery.antt =====
-- The response body's delivery processor of src/vdp_wasm.c: the task that a request keeps, vdp_wasm_init,
-- vdp_wasm_bytes, vdp_wasm_fini and vdp_wasm_task_fini. The module is a parameter: what its exported
-- functions do to its own state of type G. So is the next processor, with a state of type D.
pub mod Streams
pub mod Release
pub mod Chains
pub mod Clock
use vmod_wasm.Base.{
  ℕ, ◌+◌, ◌-◌, ◌*◌, ◌/◌, ◌%◌, ◌^◌, Bool, true, false, ◌&&◌, ◌||◌, List, [], ◌∷◌, ◌++◌, Option, none,
  some, ltb, if◌then◌else◌, length, Bytes,
}

pub data Action : Type 0 where
  vdp_null vdp_flush vdp_end : Action

abbrev pub is_end : Action → Bool
is_end vdp_end = true
is_end _ = false

-- The functions that a module exports; none for one that it does not. The body function takes the stream
-- context id, the size and the end of the stream, and reads the current body; it gives the body that it
-- sets, none where it sets none. A call that traps or fails has an effect like any other.
pub record Exports (G : Type 0) : Type 0 where
  pub on_body : Option (G → ℕ → ℕ → Bool → Option Bytes → G × Option (Option Bytes))
  pub on_log : Option (G → ℕ → G)
  pub on_done : Option (G → ℕ → G)
  pub on_delete : Option (G → ℕ → G)

pub record Timespec : Type 0 where
  pub tv_sec : ℕ
  pub tv_nsec : ℕ

-- `store` and `pooled` point to a store and to a slot of the pool with index `pool_idx`, none where they are
-- NULL. `engine`, `phase_body_fn` and `vrt_ctx` are true where the pointer is not NULL.
pub record Task (G : Type 0) : Type 0 where
  pub exports : Exports G
  pub state : G
  pub engine : Bool
  pub store : Option ℕ
  pub pooled : Option ℕ
  pub pool_idx : ℕ
  pub phase_body_fn : Bool
  pub stream_context_id : ℕ
  pub vrt_ctx : Bool
  pub response_body : Option Bytes
  pub body_modified : Bool
  pub modified_body : Option Bytes
  pub ts_start : Timespec

abbrev pub is_some : {A : Type 0} → Option A → Bool
is_some none = false
is_some (some _) = true

abbrev pub size_of : Option Bytes → ℕ
size_of none = 0
size_of (some content) = length content

-- What proxy_get_buffer_bytes gives for the response body.
abbrev pub visible_body : {G : Type 0} → Task G → Option Bytes
visible_body t = if t.body_modified then t.modified_body else t.response_body

-- proxy_set_buffer_bytes keeps the body that it was given.
abbrev pub keep_body : {G : Type 0} → Option (Option Bytes) → Task G → Task G
keep_body none t = t
keep_body (some body) t = record t { body_modified = true; modified_body = body }

abbrev pub BodyFn : Type 0 → Type 0
BodyFn G = G → ℕ → ℕ → Bool → Option Bytes → G × Option (Option Bytes)

abbrev pub run_body_fn : {G : Type 0} → Option (BodyFn G) → ℕ → Bool → Task G → Task G
run_body_fn none size end_of_stream t = t
run_body_fn (some f) size end_of_stream t =
    let (state, set) =
      f t.state t.stream_context_id (size % 2 ^ 32) end_of_stream (visible_body t) in
    keep_body set (record t { state = state })

unfoldable pub call_body_fn : {G : Type 0} → ℕ → Bool → Task G → Task G
call_body_fn size end_of_stream t = run_body_fn t.exports.on_body size end_of_stream t

abbrev pub clear_modified : {G : Type 0} → Task G → Task G
clear_modified t = record t { modified_body = none; body_modified = false }

-- A chunk of no bytes is shown to the module as NULL.
abbrev pub exposed : Option Bytes → Option Bytes
exposed chunk = if ltb 0 (size_of chunk) then chunk else none

unfoldable pub offer_chunk : {G : Type 0} → Bool → Option Bytes → Task G → Task G
offer_chunk end_of_stream chunk t =
    let ready = record t {
      vrt_ctx = true;
      modified_body = none;
      body_modified = false;
      response_body = exposed chunk;
    } in
    record (call_body_fn (size_of chunk) end_of_stream ready) {
      response_body = none;
      vrt_ctx = false;
    }

abbrev pub vdp_wasm_offered : Action → Option Bytes → Bool
vdp_wasm_offered act chunk = ltb 0 (size_of chunk) || is_end act

-- `next` is VDP_bytes of the next processor, with its result.
module _ {G D R : Type 0} (next : Action → Option Bytes → D → D × R) where
  abbrev pub pass_on : Action → Option Bytes → Task G → D → Task G × (D × R)
  pass_on act chunk t down =
      if t.body_modified
      then (clear_modified t, next act t.modified_body down)
      else (t, next act chunk down)

  unfoldable pub vdp_wasm_bytes : Action → Option Bytes → Task G → D → Task G × (D × R)
  vdp_wasm_bytes act chunk t down =
      pass_on act chunk (if vdp_wasm_offered act chunk then offer_chunk (is_end act) chunk t else t)
        down

-- The milliseconds between two times, of which the second is not before the first.
unfoldable pub elapsed_ms : Timespec → Timespec → ℕ
elapsed_ms start end =
    let ms = (end.tv_sec - start.tv_sec) * 1000 in
    if ltb end.tv_nsec start.tv_nsec
    then ms - (start.tv_nsec - end.tv_nsec) / 1000000
    else ms + (end.tv_nsec - start.tv_nsec) / 1000000

abbrev pub call_export : {G : Type 0} → Option (G → ℕ → G) → Task G → Task G
call_export none t = t
call_export (some f) t = record t { state = f t.state t.stream_context_id }

-- The log, done and delete callbacks, in this order.
unfoldable pub lifecycle : {G : Type 0} → Task G → Task G
lifecycle t =
    call_export t.exports.on_delete (call_export t.exports.on_done (call_export t.exports.on_log t))

-- The calls of vwasm_store_pool_release, each with the index of the pool and the slot, those of
-- wasmtime_store_delete with the store, in their order; how often vwasm_proxy_ctx_cleanup has been called; and
-- the engine's statistics.
pub record Ledger : Type 0 where
  pub released : List (ℕ × ℕ)
  pub deleted : List (Option ℕ)
  pub cleaned : ℕ
  pub calls_ok : ℕ
  pub calls_timeout : ℕ

abbrev pub give_store : Option ℕ → ℕ → Option ℕ → Ledger → Ledger
give_store (some slot) pool_idx store ledger = record ledger {
  released = ledger.released ++ ((pool_idx, slot) ∷ []);
}
give_store none pool_idx store ledger = record ledger { deleted = ledger.deleted ++ (store ∷ []) }

-- A slot goes back to the pool that the task names; a store that is not of a pool is deleted.
abbrev pub give_back : {G : Type 0} → Task G → Ledger → Ledger
give_back t ledger = give_store t.pooled t.pool_idx t.store ledger

abbrev pub clean_context : Ledger → Ledger
clean_context ledger = record ledger { cleaned = ledger.cleaned + 1 }

abbrev pub count_call : {G : Type 0} → Timespec → Task G → Ledger → Ledger
count_call now t ledger =
    if t.engine
    then record ledger {
      calls_ok = ledger.calls_ok + 1;
      calls_timeout = ledger.calls_timeout + (if ltb 10 (elapsed_ms t.ts_start now) then 1 else 0);
    }
    else ledger

-- The request's PRIV_TASK slot, none once it is freed, and whether the processor points to it.
pub record Request (G : Type 0) : Type 0 where
  pub task : Option (Task G)
  pub priv : Bool
  pub ledger : Ledger

-- 0 where the processor is pushed, 1 where there is no task.
unfoldable pub vdp_wasm_init : {G : Type 0} → Request G → Request G × ℕ
vdp_wasm_init r = elim r.task [ none ↦ (r, 1) | some t ↦ (record r { priv = true }, 0) ]

abbrev finish_task : {G : Type 0} → Timespec → Request G → Task G → Request G
finish_task now r t =
    let done = record (lifecycle (record t { vrt_ctx = true })) { vrt_ctx = false } in
    record r {
      task = some (record done { store = none });
      priv = false;
      ledger = give_back done (clean_context (count_call now done r.ledger));
    }

unfoldable pub vdp_wasm_fini : {G : Type 0} → Timespec → Request G → Request G
vdp_wasm_fini now r = if r.priv then elim r.task [ none ↦ r | some t ↦ finish_task now r t ] else r

abbrev drop_store : {G : Type 0} → Task G → Ledger → Ledger
drop_store t ledger = if is_some t.store then give_back t (clean_context ledger) else ledger

unfoldable pub vdp_wasm_task_fini : {G : Type 0} → Request G → Request G
vdp_wasm_task_fini r = elim r.task [
  | none ↦ r
  | some t ↦ record r { task = none; ledger = drop_store t r.ledger }
]
