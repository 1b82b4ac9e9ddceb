-- ===== src/Shared/Queues.antt =====
-- The named queues of src/proxy_wasm_shared.c: vwasm_queue_register, vwasm_queue_resolve,
-- vwasm_queue_enqueue and vwasm_queue_dequeue. The list of a queue's messages is the chain from `head`
-- to `tail`; a message with NULL data is the empty one. Each call holds the lock of the store, so it
-- is one step; its allocations succeed or fail as its Boolean argument says.
pub mod Register
pub mod Fifo
use vmod_wasm.Base.{
  ℕ, zero, suc, ◌+◌, ◌-◌, ◌%◌, ◌^◌, Bool, true, false, not, ◌&&◌, List, [], ◌∷◌, ◌++◌, Option, none,
  some, ltb, leb, ◌==◌, if◌then◌else◌, incr32, length, take, strlen, Bytes, bytes_eq, Slice, null,
  bytes, slice_len,
}

pub record Queue : Type 0 where
  pub name : Bytes
  pub id : ℕ
  pub messages : List Bytes
  pub depth : ℕ

pub record QueueStore : Type 0 where
  pub queues : List Queue
  pub next_id : ℕ

abbrev pub max_name : ℕ
max_name = 256

abbrev pub max_msg : ℕ
max_msg = 65536

abbrev pub max_depth : ℕ
max_depth = 1024

abbrev pub max_count : ℕ
max_count = 64

abbrev pub new_store : QueueStore
new_store = record { queues = []; next_id = 1 }

-- `strlen(q->name) == name_len && memcmp(q->name, name, name_len) == 0`.
abbrev pub has_name : Bytes → Queue → Bool
has_name name q = strlen q.name == length name && bytes_eq (take (length name) q.name) name

-- The id of the first queue with the name.
unfoldable pub find_name : Bytes → List Queue → Option ℕ
find_name name [] = none
find_name name (q ∷ qs) = if has_name name q then some q.id else find_name name qs

create_queue : Bool → QueueStore → Bytes → QueueStore × ℕ
create_queue alloc_ok s name =
    if ltb max_count s.next_id then (s, 0) else if not alloc_ok then (s, 0) else (
      record {
        queues = record { name = name; id = s.next_id; messages = []; depth = 0 } ∷ s.queues;
        next_id = incr32 s.next_id;
      },
      s.next_id,
    )

-- The id of the queue, or 0.
unfoldable pub queue_register : Bool → QueueStore → Slice → QueueStore × ℕ
unfolding create_queue
queue_register alloc_ok s (null n) = (s, 0)
queue_register alloc_ok s (bytes name) =
    if length name == 0
    then (s, 0)
    else if ltb max_name (length name)
    then (s, 0)
    else elim (find_name name s.queues) [ some id ↦ (s, id) | none ↦ create_queue alloc_ok s name ]

-- The VM id is ignored.
pub queue_resolve : QueueStore → Slice → Slice → ℕ
queue_resolve s vm_id (null n) = 0
queue_resolve s vm_id (bytes name) =
    if length name == 0 then 0 else elim (find_name name s.queues) [ some id ↦ id | none ↦ 0 ]

-- The first queue with the id.
unfoldable pub find_queue : ℕ → List Queue → Option Queue
find_queue id [] = none
find_queue id (q ∷ qs) = if q.id == id then some q else find_queue id qs

-- A write through the pointer to that queue.
pub put_queue : ℕ → Queue → List Queue → List Queue
put_queue id q [] = []
put_queue id q (x ∷ qs) = if x.id == id then q ∷ qs else x ∷ put_queue id q qs

-- The message that a slice becomes.
abbrev pub message_of : Slice → Bytes
message_of (null n) = []
message_of (bytes b) = b

abbrev pub appended : Queue → Bytes → Queue
appended q m = record q { messages = q.messages ++ m ∷ []; depth = incr32 q.depth }

append_to : Bool → QueueStore → ℕ → Bytes → Queue → QueueStore × Bool
append_to alloc_ok s id m q =
    if leb max_depth q.depth
    then (s, false)
    else if not alloc_ok
    then (s, false)
    else (record s { queues = put_queue id (appended q m) s.queues }, true)

-- 0 is `true`, -1 is `false`.
pub queue_enqueue : Bool → QueueStore → ℕ → Slice → QueueStore × Bool
unfolding append_to put_queue
queue_enqueue alloc_ok s id m =
    if id == 0
    then (s, false)
    else if ltb max_msg (slice_len m)
    then (s, false)
    else elim (find_queue id s.queues) [
      | none ↦ (s, false)
      | some q ↦ append_to alloc_ok s id (message_of m) q
    ]

-- `depth--` on a `uint32_t`.
abbrev decr32 : ℕ → ℕ
decr32 n = (n + (2 ^ 32 - 1)) % 2 ^ 32

abbrev pub popped : Queue → List Bytes → Queue
popped q rest = record q { messages = rest; depth = decr32 q.depth }

pop_from : QueueStore → ℕ → Queue → List Bytes → QueueStore × Option Bytes
pop_from s id q [] = (s, none)
pop_from s id q (m ∷ rest) = (record s { queues = put_queue id (popped q rest) s.queues }, some m)

-- `none` is -1: no such queue, or an empty one.
pub queue_dequeue : QueueStore → ℕ → QueueStore × Option Bytes
unfolding pop_from put_queue
queue_dequeue s id =
    if id == 0
    then (s, none)
    else elim (find_queue id s.queues) [ none ↦ (s, none) | some q ↦ pop_from s id q q.messages ]
