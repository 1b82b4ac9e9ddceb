-- ===== src/Delivery/Chains/Stores.antt =====
-- The stores of a chain's tasks in src/vdp_wasm.c: used by vdp_wasm_chain_bytes and vdp_wasm_chain_fini, and
-- given back by vdp_wasm_chain_task_free.
use mathlib.Core.List.{append_assoc, append-nil}
use vmod_wasm.Base.{
  ℕ, ◌≡◌, refl, ◌∙◌, ap, Bool, true, false, ◌&&◌, List, [], ◌∷◌, ◌++◌, map, Option, none, some, ltb,
  if◌then◌else◌, Bytes, Bool-cases, inl, inr,
}
use vmod_wasm.Delivery.{
  Action, is_end, Task, BodyFn, Ledger, size_of, is_some, lifecycle, give_store,
}
use vmod_wasm.Delivery.Release.{
  Handles, Counts, counts, handles, handles-run_body_fn, handles-lifecycle,
}
use vmod_wasm.Delivery.Chains.{
  filter_chunk, filter_chunks, call_filter, vdp_wasm_chain_bytes, ChainRequest, vdp_wasm_chain_init,
  vdp_wasm_chain_fini, vdp_wasm_chain_task_free, free_stores, end_task,
}

handles-call_filter :
    {G : Type 0} (o : Option (BodyFn G)) (act : Action) (t : Task G) (current : Option Bytes)
    → handles (call_filter o act t current).0 ≡ handles t
handles-call_filter none act t current = refl
handles-call_filter (some f) act t current =
    handles-run_body_fn (some f) (size_of current) (is_end act)
      (record t { response_body = current })

handles-filter_chunk :
    {G : Type 0} (act : Action) (t : Task G) (current : Option Bytes)
    → handles (filter_chunk act t current).0 ≡ handles t
unfolding filter_chunk
handles-filter_chunk act t current = elim (Bool-cases (is_some t.store && t.phase_body_fn)) [
  | inl h ↦ rw h (handles-call_filter t.exports.on_body act t current)
  | inr h ↦ rw h refl
]

handles-filter_chunks :
    {G : Type 0} (act : Action) (ts : List (Task G)) (current : Option Bytes)
    → map handles (filter_chunks act ts current).0 ≡ map handles ts
unfolding filter_chunks
handles-filter_chunks act [] current = refl
handles-filter_chunks act (t ∷ ts) current =
    rw (handles-filter_chunk act t current, handles-filter_chunks act ts _) refl

handles-end_if :
    {G : Type 0} (b : Bool) (t : Task G) → handles (if b then lifecycle t else t) ≡ handles t
handles-end_if true t = handles-lifecycle t
handles-end_if false t = refl

handles-end_tasks :
    {G : Type 0} (ts : List (Task G)) → map handles (map end_task ts) ≡ map handles ts
handles-end_tasks [] = refl
handles-end_tasks (t ∷ ts) = rw (handles-end_if (is_some t.store) t, handles-end_tasks ts) refl

-- The slots of tasks that have a store, each with the index of its pool.
abbrev pub pool_slots : List Handles → List (ℕ × ℕ)
pool_slots [] = []
pool_slots ((engine, (none, (slot, pool_idx))) ∷ hs) = pool_slots hs
pool_slots ((engine, (some store, (none, pool_idx))) ∷ hs) = pool_slots hs
pool_slots ((engine, (some store, (some slot, pool_idx))) ∷ hs) = (pool_idx, slot) ∷ pool_slots hs

-- The stores of tasks that have one and no slot of a pool.
abbrev pub own_stores : List Handles → List (Option ℕ)
own_stores [] = []
own_stores ((engine, (none, (slot, pool_idx))) ∷ hs) = own_stores hs
own_stores ((engine, (some store, (none, pool_idx))) ∷ hs) = some store ∷ own_stores hs
own_stores ((engine, (some store, (some slot, pool_idx))) ∷ hs) = own_stores hs

-- What has been given back once each task has given back its own.
abbrev pub with_stores : Ledger → List Handles → Counts
with_stores l hs = (l.released ++ pool_slots hs, (l.deleted ++ own_stores hs, l.cleaned))

with_stores-cons :
    (engine : Bool) (store slot : Option ℕ) (idx : ℕ) (l : Ledger) (hs : List Handles)
    → with_stores (if is_some store then give_store slot idx store l else l) hs
      ≡ with_stores l ((engine, (store, (slot, idx))) ∷ hs)
with_stores-cons e none slot idx l hs = refl
with_stores-cons e (some h) (some p) idx l hs =
    ap (λ x. (x, (l.deleted ++ own_stores hs, l.cleaned)))
      (append_assoc l.released ((idx, p) ∷ []) (pool_slots hs))
with_stores-cons e (some h) none idx l hs =
    ap (λ x. (l.released ++ pool_slots hs, (x, l.cleaned)))
      (append_assoc l.deleted (some h ∷ []) (own_stores hs))

with_stores-nil : (l : Ledger) → counts l ≡ with_stores l []
with_stores-nil l = rw (append-nil l.released, append-nil l.deleted) refl

counts-free_stores :
    {G : Type 0} (ts : List (Task G)) (l : Ledger)
    → counts (free_stores ts l) ≡ with_stores l (map handles ts)
unfolding free_stores
counts-free_stores [] l = with_stores-nil l
counts-free_stores (t ∷ ts) l =
    counts-free_stores ts _
    ∙ with_stores-cons t.engine t.store t.pooled t.pool_idx l (map handles ts)

module _ {G D R : Type 0} (next : Action → Option Bytes → D → D × R) where
  -- The chain's processor called on each chunk of a stream.
  pub deliver_chain : List (Action × Option Bytes) → List (Task G) → D → List (Task G) × D
  deliver_chain [] ts down = (ts, down)
  deliver_chain ((act, chunk) ∷ rest) ts down =
      let (ts', (down', _)) = vdp_wasm_chain_bytes next act chunk ts down in
      deliver_chain rest ts' down'

  handles-deliver_chain :
      (chunks : List (Action × Option Bytes)) (ts : List (Task G)) (down : D)
      → map handles (deliver_chain chunks ts down).0 ≡ map handles ts
  unfolding deliver_chain vdp_wasm_chain_bytes
  handles-deliver_chain [] ts down = refl
  handles-deliver_chain ((act, chunk) ∷ rest) ts down =
      handles-deliver_chain rest _ _ ∙ elim (Bool-cases (ltb 0 (size_of chunk))) [
        | inl h ↦ rw h (handles-filter_chunks act ts chunk)
        | inr h ↦ rw h refl
      ]

  -- A response through a chain, where the processor is pushed, and the end of the request.
  pub respond_chain : Bool → List (Action × Option Bytes) → D → ChainRequest G → ChainRequest G
  respond_chain false chunks down r = vdp_wasm_chain_task_free r
  respond_chain true chunks down r =
      let pushed = (vdp_wasm_chain_init r).0 in
      let streamed = record pushed {
        tasks = elim pushed.tasks [ none ↦ none | some ts ↦ some (deliver_chain chunks ts down).0 ];
      } in
      vdp_wasm_chain_task_free (vdp_wasm_chain_fini streamed)

  -- However a response goes through a chain, each task that has a store gives back its own exactly once: its
  -- slot, where it has one of a pool, to the pool that it names, and its store by deletion where it has none,
  -- in the order of the array. Nothing else is given back or deleted, the chain is freed, and no task's context
  -- is cleaned up. No processor points to the chain yet.
  pub respond_chain_settles :
      (pushed : Bool) (chunks : List (Action × Option Bytes)) (down : D) (ts : List (Task G))
      (l : Ledger)
      → let r =
          respond_chain pushed chunks down (record { tasks = some ts; priv = false; ledger = l }) in
        (r.tasks ≡ none) × (counts r.ledger ≡ with_stores l (map handles ts))
  unfolding respond_chain vdp_wasm_chain_init vdp_wasm_chain_fini vdp_wasm_chain_task_free
  respond_chain_settles false chunks down ts l = (refl, counts-free_stores ts l)
  respond_chain_settles true chunks down ts l = (
    refl,
    counts-free_stores (map end_task (deliver_chain chunks ts down).0) l
        ∙ ap (with_stores l) (
            handles-end_tasks (deliver_chain chunks ts down).0
            ∙ handles-deliver_chain chunks ts down),
  )
