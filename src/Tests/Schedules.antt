-- ===== src/Tests/Schedules.antt =====
-- Two threads at one pool.
use vmod_wasm.Base.{zero, suc, ◌≡◌, ◌≢◌, refl, arith, true, false, List, [], ◌∷◌, some, get_elem?}
use vmod_wasm.StorePool.{Slot, idle, holding, World, Event, steps, writes, run, step_thread}
use vmod_wasm.StorePool.Exclusion.{IsExclusive, run-holding_apart}
use vmod_wasm.StorePool.Isolation.{run-isolated}

abbrev free_slot : Slot
free_slot = record {
  in_use = false;
  ready = true;
  memory_valid = true;
  memory = 9 ∷ 9 ∷ 9 ∷ [];
  seq = 0;
}

abbrev two_threads : World
two_threads = record {
  pool = record {
    slots = free_slot ∷ free_slot ∷ [];
    scan_hint = 0;
    warm_ref = some (1 ∷ 2 ∷ []);
    acquires = 0;
    releases = 0;
    fallbacks = 0;
    resets = 0;
  };
  threads = idle ∷ idle ∷ [];
}

two_threads-IsExclusive : IsExclusive two_threads
two_threads-IsExclusive zero = refl
two_threads-IsExclusive (suc zero) = refl
two_threads-IsExclusive (suc (suc x)) = refl

abbrev schedule : List Event
schedule = steps 0 ∷ steps 1 ∷ steps 0 ∷ steps 1 ∷ steps 0 ∷ steps 1 ∷ []

first_holds : get_elem? (run two_threads schedule).threads 0 ≡ some (holding 0)
unfolding run step_thread
first_holds = refl

run-holding_apart_example : get_elem? (run two_threads schedule).threads 1 ≢ some (holding 0)
run-holding_apart_example =
    run-holding_apart two_threads schedule 0 1 0 two_threads-IsExclusive (λ e. omega arith)
      first_holds

-- The first thread holds the first slot.
abbrev held : World
held = record two_threads {
  pool = record two_threads.pool { slots = record free_slot { in_use = true } ∷ free_slot ∷ [] };
  threads = holding 0 ∷ idle ∷ [];
}

held-IsExclusive : IsExclusive held
held-IsExclusive zero = refl
held-IsExclusive (suc zero) = refl
held-IsExclusive (suc (suc x)) = ground arith

run-isolated_example :
    (get_elem? (run held (steps 1 ∷ steps 1 ∷ writes 1 (7 ∷ []) ∷ [])).threads 0 ≡ some (holding 0))
    × (get_elem? (run held (steps 1 ∷ steps 1 ∷ writes 1 (7 ∷ []) ∷ [])).pool.slots 0
        ≡ get_elem? held.pool.slots 0)
run-isolated_example =
    run-isolated held (steps 1 ∷ steps 1 ∷ writes 1 (7 ∷ []) ∷ []) 0 0 held-IsExclusive
      ((λ e. omega arith), ((λ e. omega arith), ((λ e. omega arith), tt))) refl
