-- ===== src/Proxy/Sharing.antt =====
-- The calls of src/proxy_wasm.c on what guests share: proxy_get_shared_data, proxy_set_shared_data,
-- proxy_register_shared_queue, proxy_resolve_shared_queue, proxy_enqueue_shared_queue and
-- proxy_dequeue_shared_queue. They move bytes between the memory of a guest and the stores.
pub mod Handoff
use vmod_wasm.Base.{
  ℕ, ◌+◌, Bool, true, false, List, [], ◌∷◌, Option, none, some, ◌==◌, if◌then◌else◌, length, Bytes,
  Slice, null, bytes,
}
use vmod_wasm.Memory.{
  Guest, read_string, Answer, returned, failed, overrun, write_u32, return_bytes,
}
use vmod_wasm.Headers.Calls.{
  Status, proxy_ok, proxy_not_found, proxy_bad_argument, proxy_empty, proxy_cas_mismatch,
  proxy_internal, undefined,
}
use vmod_wasm.Proxy.Bodies.{value_arg, as_slice}
use vmod_wasm.Shared.SharedData.{
  Buckets, max_key, Got, shared_data_get, SetResult, set_ok, cas_mismatch, set_error,
  shared_data_set,
}
use vmod_wasm.Shared.Queues.{
  QueueStore, max_name, queue_register, queue_resolve, queue_enqueue, queue_dequeue,
}

-- A guest with the stores that its context points to; none is NULL.
pub record ShareCtx : Type 0 where
  pub guest : Guest
  pub shared_data : Option Buckets
  pub queue_store : Option QueueStore

-- A return to the guest as the last step of a call.
abbrev pub finish : ShareCtx → Guest × Answer → ShareCtx × Status
finish ctx (g, returned) = (record ctx { guest = g }, proxy_ok)
finish ctx (g, failed) = (record ctx { guest = g }, proxy_internal)
finish ctx (g, overrun) = (record ctx { guest = g }, undefined)

-- The counter is written where the value was returned.
abbrev pub with_cas : ShareCtx → ℕ → ℕ → Guest × Answer → ShareCtx × Status
with_cas ctx ret_cas cas (g, returned) = finish ctx (write_u32 g ret_cas cas)
with_cas ctx ret_cas cas (g, failed) = (record ctx { guest = g }, proxy_internal)
with_cas ctx ret_cas cas (g, overrun) = (record ctx { guest = g }, undefined)

pub get_shared_data : Bool → ShareCtx → ℕ → ℕ → ℕ → ℕ → ℕ → ShareCtx × Status
get_shared_data alloc_ok ctx key_ptr key_size ret_data ret_size ret_cas = elim ctx.shared_data [
  | none ↦ (ctx, proxy_not_found)
  | some buckets ↦ elim (read_string ctx.guest key_ptr key_size max_key) [
    | none ↦ (ctx, proxy_bad_argument)
    | some key ↦ elim (shared_data_get alloc_ok buckets (bytes key)) [
      | none ↦ (ctx, proxy_not_found)
      | some got ↦
          with_cas ctx ret_cas got.cas
            (return_bytes ctx.guest (as_slice got.value) ret_data ret_size)
    ]
  ]
]

-- NULL where the size is 0.
abbrev pub value_slice : Bytes → Slice
value_slice value = if length value == 0 then null 0 else bytes value

abbrev pub set_status : SetResult → Status
set_status set_ok = proxy_ok
set_status cas_mismatch = proxy_cas_mismatch
set_status set_error = proxy_internal

abbrev pub set_in : Bool → Bool → ShareCtx → Buckets → Bytes → Bytes → ℕ → ShareCtx × Status
set_in value_ok entry_ok ctx buckets key value cas =
    let (after, result) =
      shared_data_set value_ok entry_ok buckets (bytes key) (value_slice value) cas in
    (record ctx { shared_data = some after }, set_status result)

pub set_shared_data : Bool → Bool → ShareCtx → ℕ → ℕ → ℕ → ℕ → ℕ → ShareCtx × Status
set_shared_data value_ok entry_ok ctx key_ptr key_size val_ptr val_size cas = elim ctx.shared_data [
  | none ↦ (ctx, proxy_internal)
  | some buckets ↦ elim (read_string ctx.guest key_ptr key_size max_key) [
    | none ↦ (ctx, proxy_bad_argument)
    | some key ↦ elim (value_arg ctx.guest val_ptr val_size) [
      | none ↦ (ctx, proxy_bad_argument)
      | some value ↦ set_in value_ok entry_ok ctx buckets key value cas
    ]
  ]
]

-- The store as a registration leaves it, and the id for the guest.
abbrev pub register_in : ShareCtx → ℕ → QueueStore × ℕ → ShareCtx × Status
register_in ctx ret_id (queues, id) =
    if id == 0
    then (record ctx { queue_store = some queues }, proxy_internal)
    else finish (record ctx { queue_store = some queues }) (write_u32 ctx.guest ret_id id)

pub register_shared_queue : Bool → ShareCtx → ℕ → ℕ → ℕ → ShareCtx × Status
register_shared_queue alloc_ok ctx name_ptr name_size ret_id = elim ctx.queue_store [
  | none ↦ (ctx, proxy_internal)
  | some queues ↦ elim (read_string ctx.guest name_ptr name_size max_name) [
    | none ↦ (ctx, proxy_bad_argument)
    | some name ↦ register_in ctx ret_id (queue_register alloc_ok queues (bytes name))
  ]
]

pub resolve_shared_queue : ShareCtx → ℕ → ℕ → ℕ → ℕ → ℕ → ShareCtx × Status
resolve_shared_queue ctx vm_ptr vm_size name_ptr name_size ret_id = elim ctx.queue_store [
  | none ↦ (ctx, proxy_not_found)
  | some queues ↦ elim (read_string ctx.guest vm_ptr vm_size 256) [
    | none ↦ (ctx, proxy_bad_argument)
    | some vm ↦ elim (read_string ctx.guest name_ptr name_size max_name) [
      | none ↦ (ctx, proxy_bad_argument)
      | some name ↦
          let id = queue_resolve queues (bytes vm) (bytes name) in
          if id == 0 then (ctx, proxy_not_found) else finish ctx (write_u32 ctx.guest ret_id id)
    ]
  ]
]

abbrev pub enqueue_in : ShareCtx → QueueStore × Bool → ShareCtx × Status
enqueue_in ctx (queues, accepted) =
    (record ctx { queue_store = some queues }, if accepted then proxy_ok else proxy_internal)

pub enqueue_shared_queue : Bool → ShareCtx → ℕ → ℕ → ℕ → ShareCtx × Status
enqueue_shared_queue alloc_ok ctx id data_ptr data_size = elim ctx.queue_store [
  | none ↦ (ctx, proxy_not_found)
  | some queues ↦ elim (value_arg ctx.guest data_ptr data_size) [
    | none ↦ (ctx, proxy_bad_argument)
    | some value ↦ enqueue_in ctx (queue_enqueue alloc_ok queues id (value_slice value))
  ]
]

-- The message has left the store when it is returned.
abbrev pub dequeue_in : ShareCtx → ℕ → ℕ → QueueStore × Option Bytes → ShareCtx × Status
dequeue_in ctx ret_data ret_size (queues, none) =
    (record ctx { queue_store = some queues }, proxy_empty)
dequeue_in ctx ret_data ret_size (queues, some message) =
    finish (record ctx { queue_store = some queues })
      (return_bytes ctx.guest (bytes message) ret_data ret_size)

pub dequeue_shared_queue : ShareCtx → ℕ → ℕ → ℕ → ShareCtx × Status
dequeue_shared_queue ctx id ret_data ret_size = elim ctx.queue_store [
  | none ↦ (ctx, proxy_empty)
  | some queues ↦ dequeue_in ctx ret_data ret_size (queue_dequeue queues id)
]
