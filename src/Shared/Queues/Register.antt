-- ===== src/Shared/Queues/Register.antt =====
-- Registration gives each name one id, and every call keeps the store well-formed.
use vmod_wasm.Base.{
  ℕ, ◌+◌, ◌≤◌, ◌<◌, ◌≡◌, ◌≢◌, refl, ap, ◌∙◌, inl, inr, Bool, true, false, not, List, [], ◌∷◌, some,
  arith, ltb, leb, ◌==◌, Bool-cases, Option-cases, incr32, length, take, take_all, strlen,
  IsCString, Bytes, bytes_eq_iff, Slice, null, bytes, slice_len,
}
use vmod_wasm.Shared.Queues.{
  Queue, QueueStore, new_store, max_name, max_msg, max_depth, max_count, has_name, find_name,
  create_queue, queue_register, queue_resolve, find_queue, message_of, appended, append_to,
  queue_enqueue, popped, pop_from, queue_dequeue,
}
use vmod_wasm.Shared.Queues.Fifo.{
  IsSound, IsValid, find_queue-IsSound, appended-IsSound, popped-IsSound, put_queue-IsValid,
}

create_queue-IsValid :
    (alloc_ok : Bool) (s : QueueStore) (name : Bytes)
    → IsValid s
    → IsValid (create_queue alloc_ok s name).0
unfolding create_queue
create_queue-IsValid alloc_ok s name v = elim (Bool-cases (ltb max_count s.next_id)) [
  | inl full ↦ rw full v
  | inr room ↦ elim (Bool-cases (not alloc_ok)) [
    | inl failed ↦ rw room (rw failed v)
    | inr made ↦
        let l = v.limited in
        let lt : s.next_id ≤ max_count = ground arith in
        let next : incr32 s.next_id ≡ s.next_id + 1 = omega arith in
        let st = v.started in
        rw room (
          rw made (record {
            fresh = (st, omega arith, record { counted = refl; bounded = omega arith }, v.fresh);
            started = omega arith;
            limited = omega arith;
          }))
  ]
]

queue_register-IsValid :
    (alloc_ok : Bool) (s : QueueStore) (name : Slice)
    → IsValid s
    → IsValid (queue_register alloc_ok s name).0
unfolding queue_register
queue_register-IsValid alloc_ok s (null n) v = v
queue_register-IsValid alloc_ok s (bytes name) v = elim (Bool-cases (length name == 0)) [
  | inl empty ↦ rw empty v
  | inr nonempty ↦ elim (Bool-cases (ltb max_name (length name))) [
    | inl long ↦ rw nonempty (rw long v)
    | inr short ↦ elim (Option-cases (find_name name s.queues)) [
      | inl unknown ↦ rw nonempty (rw short (rw unknown (create_queue-IsValid alloc_ok s name v)))
      | inr (id, known) ↦ rw nonempty (rw short (rw known v))
    ]
  ]
]

append_to-IsValid :
    (alloc_ok : Bool) (s : QueueStore) (id : ℕ) (m : Bytes) (q : Queue)
    → IsValid s
    → IsSound q
    → q.id ≡ id
    → IsValid (append_to alloc_ok s id m q).0
unfolding append_to
append_to-IsValid alloc_ok s id m q v sound keyed = elim (Bool-cases (leb max_depth q.depth)) [
  | inl full ↦ rw full v
  | inr room ↦ elim (Bool-cases (not alloc_ok)) [
    | inl failed ↦ rw room (rw failed v)
    | inr made ↦
        let c = sound.counted in
        let lt : length q.messages < max_depth = ground arith in
        rw room
          (rw made (put_queue-IsValid s id (appended q m) v keyed (appended-IsSound q m sound lt)))
  ]
]

pub queue_enqueue-IsValid :
    (alloc_ok : Bool) (s : QueueStore) (id : ℕ) (m : Slice)
    → IsValid s
    → IsValid (queue_enqueue alloc_ok s id m).0
unfolding queue_enqueue
queue_enqueue-IsValid alloc_ok s id m v = elim (Bool-cases (id == 0)) [
  | inl no_id ↦ rw no_id v
  | inr some_id ↦ elim (Bool-cases (ltb max_msg (slice_len m))) [
    | inl long ↦ rw some_id (rw long v)
    | inr short ↦ elim (Option-cases (find_queue id s.queues)) [
      | inl unknown ↦ rw some_id (rw short (rw unknown v))
      | inr (q, found) ↦
          let (sound, keyed) = find_queue-IsSound id s.next_id s.queues v.fresh found in
          rw some_id
            (rw short (rw found (append_to-IsValid alloc_ok s id (message_of m) q v sound keyed)))
    ]
  ]
]

pop_from-IsValid :
    (s : QueueStore) (id : ℕ) (q : Queue) (ms : List Bytes)
    → IsValid s
    → IsSound q
    → q.id ≡ id
    → q.messages ≡ ms
    → IsValid (pop_from s id q ms).0
unfolding pop_from
pop_from-IsValid s id q [] v sound keyed e = v
pop_from-IsValid s id q (m ∷ rest) v sound keyed e =
    put_queue-IsValid s id (popped q rest) v keyed (popped-IsSound q m rest sound e)

queue_dequeue-IsValid : (s : QueueStore) (id : ℕ) → IsValid s → IsValid (queue_dequeue s id).0
unfolding queue_dequeue
queue_dequeue-IsValid s id v = elim (Bool-cases (id == 0)) [
  | inl no_id ↦ rw no_id v
  | inr some_id ↦ elim (Option-cases (find_queue id s.queues)) [
    | inl unknown ↦ rw some_id (rw unknown v)
    | inr (q, found) ↦
        let (sound, keyed) = find_queue-IsSound id s.next_id s.queues v.fresh found in
        rw some_id (rw found (pop_from-IsValid s id q q.messages v sound keyed refl))
  ]
]

-- The calls that change the store.
pub data Call : Type 0 where
  registers : Bool → Slice → Call
  enqueues : Bool → ℕ → Slice → Call
  dequeues : ℕ → Call

pub step : QueueStore → Call → QueueStore
step s (registers alloc_ok name) = (queue_register alloc_ok s name).0
step s (enqueues alloc_ok id m) = (queue_enqueue alloc_ok s id m).0
step s (dequeues id) = (queue_dequeue s id).0

pub run : QueueStore → List Call → QueueStore
run s [] = s
run s (c ∷ cs) = run (step s c) cs

step-IsValid : (s : QueueStore) (c : Call) → IsValid s → IsValid (step s c)
unfolding step
step-IsValid s (registers alloc_ok name) v = queue_register-IsValid alloc_ok s name v
step-IsValid s (enqueues alloc_ok id m) v = queue_enqueue-IsValid alloc_ok s id m v
step-IsValid s (dequeues id) v = queue_dequeue-IsValid s id v

run-from-IsValid : (s : QueueStore) (cs : List Call) → IsValid s → IsValid (run s cs)
unfolding run
run-from-IsValid s [] v = v
run-from-IsValid s (c ∷ cs) v = run-from-IsValid (step s c) cs (step-IsValid s c v)

-- After any sequence of calls from an empty store: the ids are positive and distinct, no id is above
-- 64, and each queue's depth counter is the number of its messages and at most 1024.
pub run_new-IsValid : (cs : List Call) → IsValid (run new_store cs)
run_new-IsValid cs =
    run-from-IsValid new_store cs
      (record { fresh = tt; started = omega arith; limited = omega arith })

-- A name that a store takes.
pub record Fits (name : Bytes) : Type 0 where
  pub some_name : 0 < length name
  pub short_name : length name ≤ max_name
  pub no_nul : IsCString name

has_name_self : (name : Bytes) (q : Queue) → IsCString name → q.name ≡ name → has_name name q ≡ true
has_name_self name q c e =
    let l : strlen q.name ≡ length name = ap strlen e ∙ c in
    let t : take (length name) q.name ≡ name =
      ap (take (length name)) e ∙ take_all (length name) name (omega arith) in
    ground (arith, bytes_eq_iff (take (length name) q.name) name)

register_known :
    (alloc_ok : Bool) (s : QueueStore) (name : Bytes) {id : ℕ}
    → Fits name
    → find_name name s.queues ≡ some id
    → queue_register alloc_ok s (bytes name) ≡ (s, id)
unfolding queue_register
register_known alloc_ok s name f known =
    let a : (length name == 0) ≡ false = let h = f.some_name in ground arith in
    let b : ltb max_name (length name) ≡ false = let h = f.short_name in ground arith in
    rw a (rw b (rw known refl))

resolve_known :
    (s : QueueStore) (name : Bytes) (vm_id : Slice) {id : ℕ}
    → 0 < length name
    → find_name name s.queues ≡ some id
    → queue_resolve s vm_id (bytes name) ≡ id
unfolding queue_resolve
resolve_known s name vm_id pos known =
    let a : (length name == 0) ≡ false = ground arith in rw a (rw known refl)

create_known :
    (alloc_ok : Bool) (s : QueueStore) (name : Bytes)
    → IsCString name
    → (create_queue alloc_ok s name).1 ≢ 0
    → find_name name (create_queue alloc_ok s name).0.queues ≡ some (create_queue alloc_ok s name).1
unfolding create_queue find_name
create_known alloc_ok s name c nonzero = elim (Bool-cases (ltb max_count s.next_id)) [
  | inl full ↦ absurd (nonzero (rw full refl))
  | inr room ↦ elim (Bool-cases (not alloc_ok)) [
    | inl failed ↦ absurd (nonzero (rw room (rw failed refl)))
    | inr made ↦
        let h =
          has_name_self name (record { name = name; id = s.next_id; messages = []; depth = 0 }) c
            refl in
        rw room (rw made (rw h refl))
  ]
]

registered_known :
    (alloc_ok : Bool) (s : QueueStore) (name : Bytes)
    → Fits name
    → (queue_register alloc_ok s (bytes name)).1 ≢ 0
    → find_name name (queue_register alloc_ok s (bytes name)).0.queues
      ≡ some (queue_register alloc_ok s (bytes name)).1
unfolding queue_register
registered_known alloc_ok s name f nonzero =
    let a : (length name == 0) ≡ false = let h = f.some_name in ground arith in
    let b : ltb max_name (length name) ≡ false = let h = f.short_name in ground arith in
    elim (Option-cases (find_name name s.queues)) [
      | inr (id, known) ↦ rw a (rw b (rw known known))
      | inl unknown ↦ rw a (
          rw b (
            rw unknown
              (create_known alloc_ok s name f.no_nul (rw unknown at (rw b at (rw a at nonzero))))))
    ]

-- A registration that gives an id other than 0 makes the name resolve to that id, under whatever VM id,
-- and a second registration of the name gives that id again and changes nothing. The name has 1 to 256
-- bytes and no NUL.
pub queue_register_resolves :
    (alloc_ok later_ok : Bool) (s : QueueStore) (name : Bytes) (vm_id : Slice)
    → Fits name
    → (queue_register alloc_ok s (bytes name)).1 ≢ 0
    → let r = queue_register alloc_ok s (bytes name) in
      (queue_resolve r.0 vm_id (bytes name) ≡ r.1) × (queue_register later_ok r.0 (bytes name) ≡ r)
queue_register_resolves alloc_ok later_ok s name vm_id f nonzero =
    let known = registered_known alloc_ok s name f nonzero in
    (resolve_known _ name vm_id f.some_name known, register_known later_ok _ name f known)
