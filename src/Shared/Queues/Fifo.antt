-- ===== src/Shared/Queues/Fifo.antt =====
-- The store as a table from ids to sequences of messages, and that table as a table of FIFO queues.
use vmod_wasm.Base.{
  ℕ, suc, ◌+◌, ◌≤◌, ◌<◌, ◌≡◌, ◌≢◌, ◌⊎◌, refl, sym, ap, ◌∙◌, inl, inr, Bool, true, false, List, [],
  ◌∷◌, ◌++◌, Option, none, some, arith, ltb, leb, ◌==◌, ==_iff, if◌then◌else◌, Bool-cases, length,
  length-append, Bytes, Slice, slice_len,
}
use vmod_wasm.Shared.Queues.{
  Queue, QueueStore, max_msg, max_depth, max_count, find_queue, put_queue, message_of, appended,
  append_to, queue_enqueue, popped, pop_from, queue_dequeue,
}

-- The depth counter counts the messages, within the limit.
pub record IsSound (q : Queue) : Type 0 where
  pub counted : q.depth ≡ length q.messages
  pub bounded : q.depth ≤ max_depth

-- Ids fall along the list, from below `n`; all queues are sound.
abbrev pub Below : ℕ → List Queue → Type 0
Below n [] = Unit {0}
Below n (q ∷ qs) = (0 < q.id) × (q.id < n) × IsSound q × Below q.id qs

pub record IsValid (s : QueueStore) : Type 0 where
  pub fresh : Below s.next_id s.queues
  pub started : 0 < s.next_id
  pub limited : s.next_id ≤ max_count + 1

find_queue-put_queue :
    (id k : ℕ) (q : Queue) (qs : List Queue) {old : Queue}
    → find_queue id qs ≡ some old
    → q.id ≡ id
    → find_queue k (put_queue id q qs) ≡ (if id == k then some q else find_queue k qs)
unfolding find_queue put_queue
find_queue-put_queue id k q [] h e = absurd (cc)
find_queue-put_queue id k q (x ∷ qs) {old} h e = elim (Bool-cases (x.id == id)) [
  | inl hit ↦ rw hit (ground arith)
  | inr miss ↦
      let ih = find_queue-put_queue id k q qs {old = old} (rw miss at h) e in rw miss (ground arith)
]

pub find_queue-IsSound :
    (id n : ℕ) (qs : List Queue) {q : Queue}
    → Below n qs
    → find_queue id qs ≡ some q
    → IsSound q × (q.id ≡ id)
unfolding find_queue
find_queue-IsSound id n [] b h = absurd (cc)
find_queue-IsSound id n (x ∷ qs) {q} b h = elim (Bool-cases (x.id == id)) [
  | inl hit ↦
      let same : ◌≡◌ {A = Option Queue} (some x) (some q) = rw hit at h in
      let s : x ≡ q = cc in
      rw s at (let p : IsSound x × (x.id ≡ id) = (b.2, (==_iff x.id id).0 hit) in p)
  | inr miss ↦ find_queue-IsSound id x.id qs {q = q} b.3 (rw miss at h)
]

put_queue-Below :
    (id n : ℕ) (q : Queue) (qs : List Queue)
    → Below n qs
    → q.id ≡ id
    → IsSound q
    → Below n (put_queue id q qs)
unfolding put_queue
put_queue-Below id n q [] b e s = tt
put_queue-Below id n q (x ∷ qs) b e s = elim (Bool-cases (x.id == id)) [
  | inl hit ↦
      let h : x.id ≡ q.id = (==_iff x.id id).0 hit ∙ sym e in
      rw hit (rw h at (b.0), rw h at (b.1), s, rw h at (b.3))
  | inr miss ↦ rw miss (b.0, b.1, b.2, put_queue-Below id x.id q qs b.3 e s)
]

-- The messages of a queue, the oldest first.
abbrev pub contents : QueueStore → ℕ → Option (List Bytes)
contents s id = elim (find_queue id s.queues) [ none ↦ none | some q ↦ some q.messages ]

pub appended-IsSound :
    (q : Queue) (m : Bytes) → IsSound q → length q.messages < max_depth → IsSound (appended q m)
appended-IsSound q m s room =
    let l = length-append q.messages (m ∷ []) in
    let c = s.counted in record { counted = omega arith; bounded = omega arith }

pub popped-IsSound :
    (q : Queue) (m : Bytes) (rest : List Bytes)
    → IsSound q
    → q.messages ≡ m ∷ rest
    → IsSound (popped q rest)
popped-IsSound q m rest s e =
    let l : length q.messages ≡ suc (length rest) = ap length e in
    let c = s.counted in
    let b = s.bounded in record { counted = omega arith; bounded = omega arith }

contents-put_queue :
    (s : QueueStore) (id k : ℕ) (q : Queue) {old : Queue}
    → find_queue id s.queues ≡ some old
    → q.id ≡ id
    → contents (record s { queues = put_queue id q s.queues }) k
      ≡ (if id == k then some q.messages else contents s k)
contents-put_queue s id k q {old} h e =
    let f = find_queue-put_queue id k q s.queues {old = old} h e in ground arith

pub put_queue-IsValid :
    (s : QueueStore) (id : ℕ) (q : Queue)
    → IsValid s
    → q.id ≡ id
    → IsSound q
    → IsValid (record s { queues = put_queue id q s.queues })
put_queue-IsValid s id q v e sound = record {
  fresh = put_queue-Below id s.next_id q s.queues v.fresh e sound;
  started = v.started;
  limited = v.limited;
}

enqueue_found :
    (s : QueueStore) (id : ℕ) (m : Slice) (q : Queue)
    → id ≢ 0
    → slice_len m ≤ max_msg
    → find_queue id s.queues ≡ some q
    → q.depth < max_depth
    → queue_enqueue true s id m
      ≡ (record s { queues = put_queue id (appended q (message_of m)) s.queues }, true)
unfolding queue_enqueue
enqueue_found s id m q nonzero short found room =
    let a : (id == 0) ≡ false = ground arith in
    let b : ltb max_msg (slice_len m) ≡ false = ground arith in
    let c : leb max_depth q.depth ≡ false = ground arith in
    rw a (rw b (rw found (rw (c, append_to))))

-- In a well-formed store, a message of at most 65536 bytes for a queue that exists and holds fewer
-- than 1024 messages is accepted, if memory is at hand: it goes behind the messages of that queue, and
-- no other queue changes.
pub queue_enqueue_appends :
    (s : QueueStore) (id : ℕ) (m : Slice) (q : Queue)
    → IsValid s
    → id ≢ 0
    → slice_len m ≤ max_msg
    → find_queue id s.queues ≡ some q
    → length q.messages < max_depth
    → ((queue_enqueue true s id m).1 ≡ true)
      × ((k : ℕ)
          → contents (queue_enqueue true s id m).0 k
            ≡ (if id == k then some (q.messages ++ message_of m ∷ []) else contents s k))
queue_enqueue_appends s id m q v nonzero short found room =
    let (sound, keyed) = find_queue-IsSound id s.next_id s.queues v.fresh found in
    let c = sound.counted in
    rw (enqueue_found s id m q nonzero short found (omega arith))
      (refl, λ k. contents-put_queue s id k (appended q (message_of m)) found keyed)

-- In a well-formed store, a message for the queue 0, for a queue that does not exist or one that holds
-- 1024 messages, and a message of more than 65536 bytes, are refused and change nothing.
pub queue_enqueue_refused :
    (alloc_ok : Bool) (s : QueueStore) (id : ℕ) (m : Slice)
    → IsValid s
    → (id ≡ 0)
      ⊎ ((max_msg < slice_len m)
          ⊎ ((find_queue id s.queues ≡ none)
              ⊎ ((q : Queue) × (find_queue id s.queues ≡ some q)
                  × (max_depth ≤ length q.messages))))
    → queue_enqueue alloc_ok s id m ≡ (s, false)
unfolding queue_enqueue
queue_enqueue_refused alloc_ok s id m v (inl zero_id) = ground arith
queue_enqueue_refused alloc_ok s id m v (inr (inl long)) = ground arith
queue_enqueue_refused alloc_ok s id m v (inr (inr (inl unknown))) = ground arith
queue_enqueue_refused alloc_ok s id m v (inr (inr (inr (q, found, full)))) =
    let c = (find_queue-IsSound id s.next_id s.queues v.fresh found).0.counted in
    let d : leb max_depth q.depth ≡ true = ground arith in
    let r : append_to alloc_ok s id (message_of m) q ≡ (s, false) = rw (d, append_to) refl in
    ground arith

dequeue_found :
    (s : QueueStore) (id : ℕ) (q : Queue) (m : Bytes) (rest : List Bytes)
    → id ≢ 0
    → find_queue id s.queues ≡ some q
    → q.messages ≡ m ∷ rest
    → queue_dequeue s id ≡ (record s { queues = put_queue id (popped q rest) s.queues }, some m)
unfolding queue_dequeue
dequeue_found s id q m rest nonzero found e =
    let a : (id == 0) ≡ false = ground arith in rw a (rw found (rw (e, pop_from) refl))

-- In a well-formed store, a read of a queue that holds messages gives the oldest of them and leaves the
-- others in their order, and no other queue changes.
pub queue_dequeue_pops :
    (s : QueueStore) (id : ℕ) (q : Queue) (m : Bytes) (rest : List Bytes)
    → IsValid s
    → id ≢ 0
    → find_queue id s.queues ≡ some q
    → q.messages ≡ m ∷ rest
    → ((queue_dequeue s id).1 ≡ some m)
      × ((k : ℕ)
          → contents (queue_dequeue s id).0 k ≡ (if id == k then some rest else contents s k))
queue_dequeue_pops s id q m rest v nonzero found e =
    let (sound, keyed) = find_queue-IsSound id s.next_id s.queues v.fresh found in
    rw (dequeue_found s id q m rest nonzero found e)
      (refl, λ k. contents-put_queue s id k (popped q rest) found keyed)
