-- ===== src/StorePool.antt =====
-- The pool of prepared Wasm stores of src/store_pool.c: vwasm_store_pool_acquire,
-- vwasm_store_pool_release and vwasm_warm_instance_restore. The pool has no lock, so what its
-- threads do is a sequence of steps, in whatever order: each step is up to one atomic operation on the
-- flag of a slot, with the work on the slot that follows it.
pub mod Exclusion
pub mod Isolation
pub mod Snapshot
use vmod_wasm.Base.{
  ℕ, zero, suc, ◌+◌, ◌-◌, ◌%◌, ◌^◌, Bool, true, false, not, ◌&&◌, List, [], ◌∷◌, ◌++◌, Option, none,
  some, ltb, leb, ◌==◌, if◌then◌else◌, incr64, length, get_elem?, set, drop, Bytes,
}

-- `ready` says that the slot was initialised: its pointer and its store are not NULL. `memory` is the
-- linear memory of its store.
pub record Slot : Type 0 where
  pub in_use : Bool
  pub ready : Bool
  pub memory_valid : Bool
  pub memory : Bytes
  pub seq : ℕ

-- The capacity is the number of slots; `warm_ref` is the snapshot of a valid warm instance.
pub record StorePool : Type 0 where
  pub slots : List Slot
  pub scan_hint : ℕ
  pub warm_ref : Option Bytes
  pub acquires : ℕ
  pub releases : ℕ
  pub fallbacks : ℕ
  pub resets : ℕ

-- `vwasm_warm_instance_restore` with the snapshot of a valid instance: the memory after it, and
-- whether it answers 0.
pub warm_restore : Bytes → Bytes → Bytes × Bool
warm_restore snapshot memory =
    if ltb (length memory) (length snapshot)
    then (memory, false)
    else (snapshot ++ drop (length snapshot) memory, true)

-- Where a thread stands: outside the pool, in the loop of `acquire` at `i`, behind a successful
-- compare-and-swap on slot `idx`, with the slot that `acquire` returned, or with NULL.
pub data Thread : Type 0 where
  idle : Thread
  scanning : ℕ → ℕ → Thread
  claimed : ℕ → ℕ → ℕ → Thread
  holding : ℕ → Thread
  fell_back : Thread

-- A slot whose flag was won is prepared for its request.
pub restored : Option Bytes → Slot → Slot
unfolding warm_restore
restored none s = s
restored (some snapshot) s =
    if s.memory_valid then record s { memory = (warm_restore snapshot s.memory).0 } else s

resets_after : StorePool → Slot → ℕ
resets_after p s = elim p.warm_ref [
  | none ↦ p.resets
  | some snapshot ↦ if s.memory_valid then incr64 p.resets else p.resets
]

-- The compare-and-swap on the flag of slot `idx`.
pub try_claim : StorePool → ℕ → ℕ → ℕ → Option Slot → StorePool × Thread
try_claim p start i idx none = (p, scanning start (i + 1))
try_claim p start i idx (some s) =
    if s.in_use
    then (p, scanning start (i + 1))
    else (record p { slots = set p.slots idx (record s { in_use = true }) }, claimed start i idx)

-- What follows a successful compare-and-swap, up to the return or to the next turn of the loop.
pub take_slot : StorePool → ℕ → ℕ → ℕ → Option Slot → StorePool × Thread
unfolding restored resets_after
take_slot p start i idx none = (p, claimed start i idx)
take_slot p start i idx (some s) =
    if not s.ready
    then (
      record p { slots = set p.slots idx (record s { in_use = false }) },
      scanning start (i + 1),
    )
    else (
      record p {
        slots = set p.slots idx (record (restored p.warm_ref s) { seq = incr64 s.seq });
        resets = resets_after p s;
        acquires = incr64 p.acquires;
      },
      holding idx,
    )

pub give_back : StorePool → ℕ → Option Slot → StorePool
give_back p idx none = p
give_back p idx (some s) = record p {
  slots = set p.slots idx (record s { in_use = false });
  releases = incr64 p.releases;
}

-- The next step of a thread. A thread that holds a slot releases it; one that got NULL goes on without
-- the pool.
unfoldable pub step_thread : StorePool → Thread → StorePool × Thread
unfolding try_claim take_slot give_back
step_thread p idle = (record p { scan_hint = incr64 p.scan_hint }, scanning p.scan_hint 0)
step_thread p (scanning start i) =
    let idx = (start + i) % 2 ^ 64 % length p.slots in
    if leb (length p.slots) i
    then (record p { fallbacks = incr64 p.fallbacks }, fell_back)
    else try_claim p start i idx (get_elem? p.slots idx)
step_thread p (claimed start i idx) = take_slot p start i idx (get_elem? p.slots idx)
step_thread p (holding idx) = (give_back p idx (get_elem? p.slots idx), idle)
step_thread p fell_back = (p, idle)

pub record World : Type 0 where
  pub pool : StorePool
  pub threads : List Thread

-- The thread `t` takes its next step, or the guest that runs in the slot it holds writes its memory.
pub data Event : Type 0 where
  steps : ℕ → Event
  writes : ℕ → Bytes → Event

guest_write : StorePool → Thread → Bytes → StorePool
guest_write p (holding idx) memory = elim (get_elem? p.slots idx) [
  | none ↦ p
  | some s ↦ record p { slots = set p.slots idx (record s { memory = memory }) }
]
guest_write p idle memory = p
guest_write p (scanning start i) memory = p
guest_write p (claimed start i idx) memory = p
guest_write p fell_back memory = p

step_at : World → ℕ → Option Thread → World
step_at w t none = w
step_at w t (some th) =
    let (p, th') = step_thread w.pool th in record { pool = p; threads = set w.threads t th' }

write_at : World → Bytes → Option Thread → World
unfolding guest_write
write_at w memory none = w
write_at w memory (some th) = record w { pool = guest_write w.pool th memory }

pub happen : World → Event → World
unfolding step_at write_at
happen w (steps t) = step_at w t (get_elem? w.threads t)
happen w (writes t memory) = write_at w memory (get_elem? w.threads t)

unfoldable pub run : World → List Event → World
unfolding happen
run w [] = w
run w (e ∷ es) = run (happen w e) es
