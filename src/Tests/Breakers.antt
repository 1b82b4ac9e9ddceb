-- ===== src/Tests/Breakers.antt =====
-- Circuit breakers at concrete histories.
use vmod_wasm.Base.{◌≡◌, refl, inr, [], ◌∷◌, map, arith, Bytes, codes}
use vmod_wasm.Base.Decimal.{decimal}
use vmod_wasm.HttpPool.Breaker.{cb_open, Breaker, Breakers, upstream_key, new_breaker}
use vmod_wasm.HttpPool.Breaker.Table.{lookup_breaker, entry}
use vmod_wasm.HttpPool.Breaker.Invariant.{
  allows, fails, succeeds, IsValid, new_breaker-IsSound, run, run-IsValid,
}
use vmod_wasm.HttpPool.Breaker.History.{
  cb_opens_at_threshold, callouts, AllRefused, cb_never_half_opens,
}

abbrev host : Bytes
host = codes "api.test"

abbrev no_breakers : Breakers
no_breakers = record { breakers = []; max_breakers = 32; stat_cb_rejections = 0 }

abbrev open_breaker : Breaker
open_breaker = record (new_breaker (codes "api.test:8080")) {
  state = cb_open;
  consecutive_failures = 5;
  last_failure_time = 1000;
}

abbrev one_open : Breakers
one_open = record no_breakers { breakers = open_breaker ∷ [] }

cb_opens_at_threshold_example :
    (entry
      (upstream_key host 8080)
      (run no_breakers (map (λ now. fails now host 8080) (1 ∷ 2 ∷ 3 ∷ 4 ∷ 5 ∷ []))).breakers).state
    ≡ cb_open
unfolding lookup_breaker
cb_opens_at_threshold_example =
    cb_opens_at_threshold no_breakers host 8080 (1 ∷ 2 ∷ 3 ∷ 4 ∷ 5 ∷ []) (inr (omega arith))
      (new_breaker-IsSound (upstream_key host 8080)) refl refl

cb_never_half_opens_example :
    AllRefused (callouts one_open host 8080 ((1005, 1005) ∷ (1014, 1014) ∷ (1023, 1023) ∷ []))
unfolding lookup_breaker decimal
cb_never_half_opens_example =
    cb_never_half_opens one_open host 8080 open_breaker
      ((1005, 1005) ∷ (1014, 1014) ∷ (1023, 1023) ∷ []) refl refl
      (omega arith, (omega arith, (omega arith, tt)))

run-IsValid_example :
    IsValid (run no_breakers (fails 1 host 8080 ∷ allows 2 host 80 ∷ succeeds 3 host 80 ∷ []))
run-IsValid_example =
    run-IsValid no_breakers (fails 1 host 8080 ∷ allows 2 host 80 ∷ succeeds 3 host 80 ∷ [])
      (record { bounded = omega arith; distinct = tt; sound = tt })
