-- ===== src/Proxy/Sharing/Handoff.antt =====
-- A message on its way from the memory of one guest to that of another.
use mathlib.Core.Option.{some-injective}
use vmod_wasm.Base.{
  ℕ, ◌+◌, ◌≡◌, ◌≢◌, ◌≤◌, ◌<◌, ◌^◌, refl, ◌∙◌, inl, inr, arith, true, false, List, [], ◌∷◌, Option,
  none, some, Option-cases, ◌==◌, length, Bytes, slice_len, bytes,
}
use vmod_wasm.Memory.{Guest, Answer, returned, failed, overrun, return_bytes}
use vmod_wasm.Memory.Returns.{Apart, Delivered, return_bytes-Delivered}
use vmod_wasm.Headers.Calls.{Status, proxy_ok, proxy_internal}
use vmod_wasm.Proxy.Bodies.{value_arg}
use vmod_wasm.Proxy.Sharing.{
  ShareCtx, finish, value_slice, enqueue_in, enqueue_shared_queue, dequeue_in, dequeue_shared_queue,
}
use vmod_wasm.Shared.SharedData.{Buckets}
use vmod_wasm.Shared.Queues.{
  Queue, QueueStore, max_msg, find_queue, message_of, queue_enqueue, queue_dequeue,
}
use vmod_wasm.Shared.Queues.Fifo.{IsValid, contents, queue_enqueue_appends, queue_dequeue_pops}
use vmod_wasm.Shared.Queues.Register.{queue_enqueue-IsValid}

-- A guest with the store of the queues.
abbrev pub sharing : Guest → Option Buckets → QueueStore → ShareCtx
sharing g sd queues = record { guest = g; shared_data = sd; queue_store = some queues }

slice_len-value_slice : (value : Bytes) → slice_len (value_slice value) ≡ length value
slice_len-value_slice [] = refl
slice_len-value_slice (x ∷ value) =
    let t : (length (x ∷ value) == 0) ≡ false = ground arith in rw t refl

message_of-value_slice : (value : Bytes) → message_of (value_slice value) ≡ value
message_of-value_slice [] = refl
message_of-value_slice (x ∷ value) =
    let t : (length (x ∷ value) == 0) ≡ false = ground arith in rw t refl

enqueue_eq :
    (g : Guest) (sd : Option Buckets) (queues : QueueStore) (id ptr size : ℕ) (value : Bytes)
    → value_arg g ptr size ≡ some value
    → enqueue_shared_queue true (sharing g sd queues) id ptr size
      ≡ enqueue_in (sharing g sd queues) (queue_enqueue true queues id (value_slice value))
unfolding enqueue_shared_queue
enqueue_eq g sd queues id ptr size value given = rw (given, enqueue_shared_queue) refl

finish_returned :
    (ctx : ShareCtx) (r : Guest × Answer)
    → r.1 ≡ returned
    → finish ctx r ≡ (record ctx { guest = r.0 }, proxy_ok)
finish_returned ctx (g, returned) e = refl
finish_returned ctx (g, failed) e = absurd (ground arith)
finish_returned ctx (g, overrun) e = absurd (ground arith)

finish_failed :
    (ctx : ShareCtx) (r : Guest × Answer)
    → r.1 ≡ failed
    → finish ctx r ≡ (record ctx { guest = r.0 }, proxy_internal)
finish_failed ctx (g, failed) e = refl
finish_failed ctx (g, returned) e = absurd (ground arith)
finish_failed ctx (g, overrun) e = absurd (ground arith)

dequeue_in_eq :
    (ctx : ShareCtx) (a b : ℕ) (r : QueueStore × Option Bytes) (m : Bytes)
    → r.1 ≡ some m
    → dequeue_in ctx a b r
      ≡ finish (record ctx { queue_store = some r.0 }) (return_bytes ctx.guest (bytes m) a b)
dequeue_in_eq ctx a b (queues, none) m e = absurd (ground arith)
dequeue_in_eq ctx a b (queues, some message) m e =
    let same : message ≡ m = some-injective _ _ e in rw same refl

-- What a queue holds after a call.
abbrev pub contents_after : ShareCtx × Status → ℕ → Option (List Bytes)
contents_after r id = elim r.0.queue_store [ none ↦ none | some queues ↦ contents queues id ]

dequeue_eq :
    (g : Guest) (sd : Option Buckets) (queues : QueueStore) (id a b : ℕ) (m : Bytes)
    → (queue_dequeue queues id).1 ≡ some m
    → dequeue_shared_queue (sharing g sd queues) id a b
      ≡ finish (sharing g sd (queue_dequeue queues id).0) (return_bytes g (bytes m) a b)
unfolding dequeue_shared_queue
dequeue_eq g sd queues id a b m e =
    dequeue_in_eq (sharing g sd queues) a b (queue_dequeue queues id) m e

-- A read of a queue whose message cannot be returned to the guest, for instance since its allocator
-- fails, is answered with PROXY_INTERNAL, and the message has left the queue all the same.
pub dequeue_shared_queue_lost :
    (g : Guest) (sd : Option Buckets) (queues : QueueStore) (id a b : ℕ) (q : Queue) (m : Bytes)
    (rest : List Bytes)
    → IsValid queues
    → id ≢ 0
    → find_queue id queues.queues ≡ some q
    → q.messages ≡ m ∷ rest
    → (return_bytes g (bytes m) a b).1 ≡ failed
    → ((dequeue_shared_queue (sharing g sd queues) id a b).1 ≡ proxy_internal)
      × (contents_after (dequeue_shared_queue (sharing g sd queues) id a b) id ≡ some rest)
dequeue_shared_queue_lost g sd queues id a b q m rest valid nonzero found e fails =
    let (got, left) = queue_dequeue_pops queues id q m rest valid nonzero found e in
    let same : (id == id) ≡ true = ground arith in
    rw
      (dequeue_eq g sd queues id a b m got
        ∙ finish_failed (sharing g sd (queue_dequeue queues id).0) (return_bytes g (bytes m) a b)
            fails)
      (refl, left id ∙ rw same refl)

-- The queue that a message was put into holds the message.
enqueued :
    (queues : QueueStore) (id : ℕ) (q : Queue) (value : Bytes)
    → IsValid queues
    → id ≢ 0
    → find_queue id queues.queues ≡ some q
    → q.messages ≡ []
    → length value ≤ max_msg
    → ((queue_enqueue true queues id (value_slice value)).1 ≡ true)
      × (contents (queue_enqueue true queues id (value_slice value)).0 id ≡ some (value ∷ []))
enqueued queues id q value valid nonzero found empty short =
    let len : slice_len (value_slice value) ≤ max_msg = rw (slice_len-value_slice value) short in
    let none_there : length q.messages ≡ 0 = rw empty refl in
    let (ok, there) =
      queue_enqueue_appends queues id (value_slice value) q valid nonzero len found (omega arith) in
    let same : (id == id) ≡ true = ground arith in
    (ok, there id ∙ rw (same, empty, message_of-value_slice value) refl)

-- A queue that holds one message gives it.
dequeued :
    (queues : QueueStore) (id : ℕ) (value : Bytes)
    → IsValid queues
    → id ≢ 0
    → contents queues id ≡ some (value ∷ [])
    → ((queue_dequeue queues id).1 ≡ some value)
      × (contents (queue_dequeue queues id).0 id ≡ some [])
dequeued queues id value valid nonzero e = elim (Option-cases (find_queue id queues.queues)) [
  | inl missing ↦ let e2 = rw (missing, contents) at e in absurd (ground arith)
  | inr (q, found) ↦
      let e2 = rw (found, contents) at e in
      let (got, left) =
        queue_dequeue_pops queues id q value [] valid nonzero found (some-injective _ _ e2) in
      let same : (id == id) ≡ true = ground arith in (got, left id ∙ rw same refl)
]

-- The allocator of a guest has room for the content, and the places for the results lie in the memory,
-- none of the three overlapping.
pub record Receives (h : Guest) (allocate : ℕ → Option Bytes → Option Bytes × Option ℕ)
    (m content : Bytes) (p a b : ℕ) : Type 0 where
  pub has_allocator : h.allocator ≡ some allocate
  pub answers : allocate (length content) h.memory ≡ (some m, some p)
  pub some_content : 0 < length content
  pub content_fits : p + length content ≤ length m
  pub memory_small : length m < 2 ^ 32
  pub data_fits : a + 4 ≤ length m
  pub size_fits : b + 4 ≤ length m
  pub data_apart : Apart p (length content) a 4
  pub size_apart : Apart p (length content) b 4
  pub results_apart : Apart a 4 b 4

delivered :
    (h : Guest) (allocate : ℕ → Option Bytes → Option Bytes × Option ℕ) (m content : Bytes)
    (p a b : ℕ)
    → Receives h allocate m content p a b
    → Delivered m content p a b (return_bytes h (bytes content) a b)
delivered h allocate m content p a b r =
    return_bytes-Delivered h allocate m content p a b r.has_allocator r.answers r.some_content
      r.content_fits r.memory_small r.data_fits r.size_fits r.data_apart r.size_apart
      r.results_apart

same-Delivered :
    (m content : Bytes) (p a b : ℕ) (r : Guest × Answer)
    → Delivered m content p a b r
    → Delivered m content p a b (r.0, returned)
same-Delivered m content p a b (g, answer) d = record {
  after = d.after;
  in_memory = d.in_memory;
  accepted = refl;
  same_length = d.same_length;
  read_back = d.read_back;
  content_there = d.content_there;
  ptr_there = d.ptr_there;
  size_there = d.size_there;
}

-- The guest `h` reads a queue that the guest `g` has put a message into.
abbrev pub handoff :
    Guest → Guest → Option Buckets → QueueStore → ℕ → ℕ → ℕ → ℕ → ℕ → ShareCtx × Status
handoff g h sd queues id ptr size a b =
    dequeue_shared_queue
      (record (enqueue_shared_queue true (sharing g sd queues) id ptr size).0 { guest = h }) id a b

handoff_eq :
    (g h : Guest) (sd : Option Buckets) (queues : QueueStore) (id ptr size a b : ℕ) (value : Bytes)
    → value_arg g ptr size ≡ some value
    → (queue_dequeue (queue_enqueue true queues id (value_slice value)).0 id).1 ≡ some value
    → handoff g h sd queues id ptr size a b
      ≡ finish
          (sharing h sd (queue_dequeue (queue_enqueue true queues id (value_slice value)).0 id).0)
          (return_bytes h (bytes value) a b)
handoff_eq g h sd queues id ptr size a b value given got =
    rw (enqueue_eq g sd queues id ptr size value given, handoff)
      (dequeue_eq h sd (queue_enqueue true queues id (value_slice value)).0 id a b value got)

-- In a well-formed store of queues, and where the memory for the message can be allocated, a message of 1 to
-- 65536 bytes that one guest puts from its memory into an empty queue is accepted, and another guest that then reads the queue is answered PROXY_OK and has the message at the address
-- of its allocator, and address and length where it asked for them; the queue is empty again. The
-- places in the reader's memory are taken to be there and not to overlap.
pub handoff-Delivered :
    (g h : Guest) (sd : Option Buckets) (queues : QueueStore) (id ptr size a b : ℕ) (q : Queue)
    (value : Bytes) (allocate : ℕ → Option Bytes → Option Bytes × Option ℕ) (m : Bytes) (p : ℕ)
    → IsValid queues
    → id ≢ 0
    → find_queue id queues.queues ≡ some q
    → q.messages ≡ []
    → value_arg g ptr size ≡ some value
    → length value ≤ max_msg
    → Receives h allocate m value p a b
    → ((enqueue_shared_queue true (sharing g sd queues) id ptr size).1 ≡ proxy_ok)
      × (((handoff g h sd queues id ptr size a b).1 ≡ proxy_ok)
          × ((contents_after (handoff g h sd queues id ptr size a b) id ≡ some [])
              × Delivered m value p a b
                  ((handoff g h sd queues id ptr size a b).0.guest, returned)))
handoff-Delivered g h sd queues id ptr size a b q value allocate m p valid nonzero found empty given
      short r =
    let (ok, there) = enqueued queues id q value valid nonzero found empty short in
    let after = (queue_enqueue true queues id (value_slice value)).0 in
    let (got, left) =
      dequeued after id value (queue_enqueue-IsValid true queues id (value_slice value) valid)
        nonzero there in
    let d = delivered h allocate m value p a b r in
    let e =
      handoff_eq g h sd queues id ptr size a b value given got
      ∙ finish_returned (sharing h sd (queue_dequeue after id).0) (return_bytes h (bytes value) a b)
          d.accepted in
    (
      rw (enqueue_eq g sd queues id ptr size value given) (rw ok refl),
      rw e (refl, (left, same-Delivered m value p a b (return_bytes h (bytes value) a b) d)),
    )
