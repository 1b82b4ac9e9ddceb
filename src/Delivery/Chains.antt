-- ===== src/Delivery/Chains.antt =====
-- The chain of filters of src/vdp_wasm.c: vdp_wasm_chain_bytes, vdp_wasm_chain_fini, vdp_wasm_chain_init and
-- vdp_wasm_chain_task_free. Its tasks stand in the order of the array; one type holds the states of all
-- modules. The chain's struct is freed as a whole, so only the stores are kept count of.
pub mod Composition
pub mod Stores
use vmod_wasm.Base.{
  ℕ, ◌+◌, Bool, true, false, ◌&&◌, List, [], ◌∷◌, Option, none, some, ltb, if◌then◌else◌, Bytes,
  map,
}
use vmod_wasm.Delivery.{
  Action, is_end, Task, size_of, run_body_fn, BodyFn, lifecycle, Ledger, give_back, is_some,
}

-- What a task's filter leaves as the current chunk.
abbrev pub next_chunk : {G : Type 0} → Task G → Option Bytes → Option Bytes
next_chunk t current = if t.body_modified then t.modified_body else current

-- The call of the function that the module exports for the phase, if it does.
abbrev pub call_filter :
    {G : Type 0} → Option (BodyFn G) → Action → Task G → Option Bytes → Task G × Option Bytes
call_filter none act t current = (record t { response_body = none }, current)
call_filter (some f) act t current =
    let ran =
      run_body_fn (some f) (size_of current) (is_end act) (record t { response_body = current }) in
    (record ran { response_body = none; body_modified = false }, next_chunk ran current)

-- One task of the loop, for the current chunk.
unfoldable pub filter_chunk : {G : Type 0} → Action → Task G → Option Bytes → Task G × Option Bytes
filter_chunk act t current =
    if is_some t.store && t.phase_body_fn
    then call_filter t.exports.on_body act t current
    else (t, current)

-- The loop over the tasks.
unfoldable pub filter_chunks :
    {G : Type 0} → Action → List (Task G) → Option Bytes → List (Task G) × Option Bytes
filter_chunks act [] current = ([], current)
filter_chunks act (t ∷ ts) current =
    let (t', mid) = filter_chunk act t current in
    let (ts', out) = filter_chunks act ts mid in (t' ∷ ts', out)

unfoldable pub vdp_wasm_chain_bytes :
    {G D R : Type 0}
    → (Action → Option Bytes → D → D × R)
    → Action
    → Option Bytes
    → List (Task G)
    → D
    → List (Task G) × (D × R)
vdp_wasm_chain_bytes next act chunk ts down =
    if ltb 0 (size_of chunk)
    then (let (ts', out) = filter_chunks act ts chunk in (ts', next act out down))
    else (ts, next act chunk down)

-- The request's PRIV_TASK slot for the chain, none once it is freed, and whether the processor points to it.
pub record ChainRequest (G : Type 0) : Type 0 where
  pub tasks : Option (List (Task G))
  pub priv : Bool
  pub ledger : Ledger

-- True where the processor is pushed; where there is no chain, it returns -1.
unfoldable pub vdp_wasm_chain_init : {G : Type 0} → ChainRequest G → ChainRequest G × Bool
vdp_wasm_chain_init r = elim r.tasks [
  | none ↦ (r, false)
  | some _ ↦ (record r { priv = true }, true)
]

abbrev pub end_task : {G : Type 0} → Task G → Task G
end_task t = if is_some t.store then lifecycle t else t

unfoldable pub vdp_wasm_chain_fini : {G : Type 0} → ChainRequest G → ChainRequest G
vdp_wasm_chain_fini r =
    if r.priv
    then elim r.tasks [
      | none ↦ r
      | some ts ↦ record r { tasks = some (map end_task ts); priv = false }
    ]
    else r

unfoldable pub free_stores : {G : Type 0} → List (Task G) → Ledger → Ledger
free_stores [] l = l
free_stores (t ∷ ts) l = free_stores ts (if is_some t.store then give_back t l else l)

unfoldable pub vdp_wasm_chain_task_free : {G : Type 0} → ChainRequest G → ChainRequest G
vdp_wasm_chain_task_free r = elim r.tasks [
  | none ↦ r
  | some ts ↦ record r { tasks = none; ledger = free_stores ts r.ledger }
]
