-- ===== src/Tests/Deliveries.antt =====
-- The delivery of a body through modules, at concrete chunks.
use vmod_wasm.Base.{
  ℕ, ◌+◌, ◌≡◌, refl, true, false, List, [], ◌∷◌, ◌++◌, Option, none, some, map, Bytes, codes,
}
use vmod_wasm.Delivery.{
  offer_chunk, call_body_fn, Action, vdp_null, vdp_flush, vdp_end, Exports, Task, Ledger,
  vdp_wasm_bytes,
}
use vmod_wasm.Delivery.Streams.{at_rest, transduce, feed, deliver, deliver-transduce}
use vmod_wasm.Delivery.Release.{respond, respond_settles, counts, settled, handles}
use vmod_wasm.Delivery.Chains.{filter_chunk, filter_chunks, vdp_wasm_chain_bytes}
use vmod_wasm.Delivery.Chains.Composition.{
  AllIdle, all_idle_nil, all_idle_cons, idle, run_chain, vdp_wasm_chain_bytes-run_chain,
}
use vmod_wasm.Delivery.Chains.Stores.{respond_chain, respond_chain_settles, with_stores}

-- A module that counts its calls and puts a mark behind each body that it sees.
abbrev marker : Exports ℕ
marker = record {
  on_body = some (λ s id size end_of_stream body.
      (s + 1, elim body [ none ↦ none | some b ↦ some (some (b ++ codes "!")) ]));
  on_log = none;
  on_done = none;
  on_delete = none;
}

abbrev task : Task ℕ
task = record {
  exports = marker;
  state = 0;
  engine = true;
  store = some 40;
  pooled = some 7;
  pool_idx = 2;
  phase_body_fn = true;
  stream_context_id = 1;
  vrt_ctx = false;
  response_body = none;
  body_modified = false;
  modified_body = none;
  ts_start = record { tv_sec = 1; tv_nsec = 0 };
}

-- A task with a store of its own.
abbrev own : Task ℕ
own = record task { store = some 41; pooled = none }

abbrev chunks : List (Action × Option Bytes)
chunks =
    (vdp_null, some (codes "ab"))
    ∷ (vdp_flush, none)
    ∷ (vdp_null, some (codes "c"))
    ∷ (vdp_end, none)
    ∷ []

-- The next processor keeps what it gets.
abbrev collect : Action → Option Bytes → List (Option Bytes) → List (Option Bytes) × ℕ
collect act chunk down = (down ++ (chunk ∷ []), 0)

delivered :
    (deliver collect chunks task []).1 ≡ (some (codes "ab!") ∷ none ∷ some (codes "c!") ∷ none ∷ [])
unfolding deliver vdp_wasm_bytes offer_chunk call_body_fn
delivered = refl

deliver-transduce_example :
    deliver collect chunks (at_rest task 0) []
    ≡ (let (s', outs) = transduce marker 1 chunks 0 in (at_rest task s', feed collect outs []))
deliver-transduce_example = deliver-transduce collect chunks task 0 []

abbrev ledger : Ledger
ledger = record { released = []; deleted = []; cleaned = 0; calls_ok = 0; calls_timeout = 0 }

respond_settles_example :
    let r =
      respond collect true
        (record { tv_sec = 2; tv_nsec = 0 })
        chunks
        []
        (record { task = some task; priv = false; ledger = ledger }) in
    (r.task ≡ none) × (counts r.ledger ≡ settled (handles task) (counts ledger))
respond_settles_example =
    respond_settles collect true (record { tv_sec = 2; tv_nsec = 0 }) chunks [] task ledger refl

abbrev idle_tasks : List (Task ℕ)
idle_tasks = idle task 0 none ∷ idle task 5 none ∷ []

abbrev tasks : List (Task ℕ × ℕ)
tasks = (task, 0) ∷ (task, 5) ∷ []

vdp_wasm_chain_bytes-run_chain_example :
    AllIdle
      (run_chain vdp_null tasks (some (codes "a"))).0
      (vdp_wasm_chain_bytes collect vdp_null (some (codes "a")) idle_tasks []).0
    × ((vdp_wasm_chain_bytes collect vdp_null (some (codes "a")) idle_tasks []).1
        ≡ collect vdp_null (run_chain vdp_null tasks (some (codes "a"))).1 [])
vdp_wasm_chain_bytes-run_chain_example =
    vdp_wasm_chain_bytes-run_chain collect vdp_null {ts = tasks} {us = idle_tasks}
      (some (codes "a")) [] (all_idle_cons (all_idle_cons all_idle_nil))

-- Both filters leave their marks.
chained :
    (vdp_wasm_chain_bytes collect vdp_null (some (codes "a")) idle_tasks []).1
    ≡ (some (codes "a!!") ∷ [], 0)
unfolding vdp_wasm_chain_bytes filter_chunks filter_chunk
chained = refl

respond_chain_settles_example :
    let r =
      respond_chain collect true chunks []
        (record { tasks = some (task ∷ own ∷ []); priv = false; ledger = ledger }) in
    (r.tasks ≡ none) × (counts r.ledger ≡ with_stores ledger (map handles (task ∷ own ∷ [])))
respond_chain_settles_example =
    respond_chain_settles collect true chunks [] (task ∷ own ∷ []) ledger

-- An end of the stream without data runs no filter of a chain, but does run a single module.
end_unseen :
    ((vdp_wasm_chain_bytes collect vdp_end none (task ∷ []) []).0 ≡ task ∷ [])
    × ((vdp_wasm_bytes collect vdp_end none task []).0.state ≡ 1)
unfolding vdp_wasm_chain_bytes vdp_wasm_bytes offer_chunk call_body_fn
end_unseen = (refl, refl)
