-- ===== src/Tests/Handoffs.antt =====
-- A guest that sends a message to another one.
use vmod_wasm.Base.{
  ℕ, ◌≡◌, ◌≤◌, refl, arith, inl, inr, List, [], ◌∷◌, Option, none, some, true, replicate, length,
  Bytes, codes,
}
use vmod_wasm.Memory.{Guest, validate_region, returned}
use vmod_wasm.Memory.Returns.{Delivered}
use vmod_wasm.Headers.Calls.{proxy_ok}
use vmod_wasm.Proxy.Sharing.{enqueue_shared_queue}
use vmod_wasm.Proxy.Sharing.Handoff.{sharing, contents_after, handoff, handoff-Delivered}
use vmod_wasm.Shared.Queues.{Queue, QueueStore, find_queue}
use vmod_wasm.Shared.Queues.Fifo.{IsValid}

abbrev sender : Guest
sender = record { memory = some (codes "ping"); allocator = none }

abbrev allocate : ℕ → Option Bytes → Option Bytes × Option ℕ
allocate size m = (m, some 8)

abbrev receiver : Guest
receiver = record { memory = some (replicate 16 0); allocator = some allocate }

abbrev jobs : List Bytes → Queue
jobs messages = record { name = codes "jobs"; id = 1; messages = messages; depth = length messages }

abbrev queues : List Bytes → QueueStore
queues messages = record { queues = jobs messages ∷ []; next_id = 2 }

queues-IsValid : (messages : List Bytes) → length messages ≤ 1024 → IsValid (queues messages)
queues-IsValid messages h = record {
  fresh = (omega arith, omega arith, record { counted = refl; bounded = h }, tt);
  started = omega arith;
  limited = omega arith;
}

handoff-Delivered_example :
    ((enqueue_shared_queue true (sharing sender none (queues [])) 1 0 4).1 ≡ proxy_ok)
    × (((handoff sender receiver none (queues []) 1 0 4 0 4).1 ≡ proxy_ok)
        × ((contents_after (handoff sender receiver none (queues []) 1 0 4 0 4) 1 ≡ some [])
            × Delivered
                (replicate 16 0)
                (codes "ping")
                8
                0
                4
                ((handoff sender receiver none (queues []) 1 0 4 0 4).0.guest, returned)))
unfolding find_queue validate_region
handoff-Delivered_example =
    handoff-Delivered sender receiver none (queues []) 1 0 4 0 4 (jobs []) (codes "ping") allocate
      (replicate 16 0) 8 (queues-IsValid [] (omega arith)) (λ e. absurd (omega arith)) refl refl
      refl (omega arith)
      (record {
        has_allocator = refl;
        answers = refl;
        some_content = omega arith;
        content_fits = omega arith;
        memory_small = omega arith;
        data_fits = omega arith;
        size_fits = omega arith;
        data_apart = inr (omega arith);
        size_apart = inr (omega arith);
        results_apart = inl (omega arith);
      })
