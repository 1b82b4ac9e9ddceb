-- ===== src/Tests/Stores.antt =====
-- The key-value store and the queues at concrete states.
use vmod_wasm.Base.{
  ℕ, ◌≡◌, refl, true, [], ◌∷◌, ◌++◌, some, arith, ◌==◌, if◌then◌else◌, Bytes, codes, bytes_eq,
  Slice, null, bytes,
}
use vmod_wasm.Shared.SharedData.{
  SharedEntry, Buckets, find_entry, set_ok, cas_mismatch, shared_data_set,
}
use vmod_wasm.Shared.SharedData.Lookup.{lookup_entry}
use vmod_wasm.Shared.SharedData.Cas.{Fits, shared_data_set_written, cas_once}
use vmod_wasm.Shared.Queues.{Queue, QueueStore, find_queue, queue_enqueue}
use vmod_wasm.Shared.Queues.Fifo.{IsValid, contents, queue_enqueue_appends}

abbrev key : Bytes
key = codes "hits"

abbrev value : Slice
value = bytes (codes "1")

abbrev no_entries : Buckets
no_entries i = []

abbrev old_entry : SharedEntry
old_entry = record { key = key; value = some (codes "0"); value_len = 1; cas = 3 }

-- Whatever the bucket, its chain holds the one entry.
abbrev one_entry : Buckets
one_entry i = old_entry ∷ []

key-Fits : Fits key value
key-Fits = record { some_key = omega arith; short_key = omega arith; short_value = omega arith }

shared_data_set_written_example :
    ((shared_data_set true true no_entries (bytes key) value 0).1 ≡ set_ok)
    × ((j : Bytes)
        → lookup_entry (shared_data_set true true no_entries (bytes key) value 0).0 j ≡ (
            if bytes_eq key j
            then some (record { key = key; value = some (codes "1"); value_len = 1; cas = 1 })
            else lookup_entry no_entries j))
unfolding find_entry
shared_data_set_written_example =
    shared_data_set_written no_entries key value 0 key-Fits refl (λ m. m)

cas_once_example :
    ((shared_data_set true true one_entry (bytes key) value 3).1 ≡ set_ok)
    × (shared_data_set true true
          (shared_data_set true true one_entry (bytes key) value 3).0
          (bytes key)
          (null 0)
          3
        ≡ ((shared_data_set true true one_entry (bytes key) value 3).0, cas_mismatch))
unfolding find_entry
cas_once_example =
    cas_once one_entry key value (null 0) key-Fits
      (record { some_key = omega arith; short_key = omega arith; short_value = omega arith }) refl
      refl (λ e. omega arith) (omega arith)

abbrev nul_key : Bytes
nul_key = b'a' ∷ 0 ∷ b'b' ∷ []

abbrev jobs : Queue
jobs = record { name = codes "jobs"; id = 1; messages = codes "a" ∷ codes "b" ∷ []; depth = 2 }

abbrev store : QueueStore
store = record { queues = jobs ∷ []; next_id = 2 }

store-IsValid : IsValid store
store-IsValid = record {
  fresh = (omega arith, omega arith, record { counted = refl; bounded = omega arith }, tt);
  started = omega arith;
  limited = omega arith;
}

queue_enqueue_appends_example :
    ((queue_enqueue true store 1 (bytes (codes "c"))).1 ≡ true)
    × ((k : ℕ)
        → contents (queue_enqueue true store 1 (bytes (codes "c"))).0 k
          ≡ (if 1 == k then some (jobs.messages ++ codes "c" ∷ []) else contents store k))
unfolding find_queue
queue_enqueue_appends_example =
    queue_enqueue_appends store 1 (bytes (codes "c")) jobs store-IsValid (λ e. omega arith)
      (omega arith) refl (omega arith)
