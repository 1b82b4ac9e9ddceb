-- ===== src/HttpPool/Breaker.antt =====
-- The circuit breakers of src/http_pool.c: cb_find_or_create, vwasm_http_pool_cb_allow,
-- vwasm_http_pool_cb_success and vwasm_http_pool_cb_failure. Each call holds `cb_lock`, so it is one
-- step here; the `time(NULL)` that it reads is its argument `now`. A `now - then >= d` of `time_t`
-- is written `then + d <= now`.
pub mod Table
pub mod Invariant
pub mod History
use vmod_wasm.Base.{
  ℕ, suc, ◌+◌, Bool, true, false, List, [], ◌∷◌, ◌++◌, Option, none, some, ltb, leb, if◌then◌else◌,
  incr32, incr64, length, get_elem?, set, take, Bytes, bytes_eq,
}
use vmod_wasm.Base.Decimal.{decimal}

pub data CbState : Type 0 where
  cb_closed cb_open cb_half_open : CbState

pub record Breaker : Type 0 where
  pub upstream : Bytes
  pub state : CbState
  pub consecutive_failures : ℕ
  pub consecutive_successes : ℕ
  pub last_failure_time : ℕ
  pub last_success_time : ℕ
  pub threshold : ℕ
  pub half_open_timeout_s : ℕ
  pub total_requests : ℕ
  pub total_failures : ℕ
  pub total_rejections : ℕ

-- `breakers` holds the first `num_breakers` entries of the array.
pub record Breakers : Type 0 where
  pub breakers : List Breaker
  pub max_breakers : ℕ
  pub stat_cb_rejections : ℕ

abbrev pub cb_threshold_default : ℕ
cb_threshold_default = 5

abbrev pub cb_halfopen_timeout_s : ℕ
cb_halfopen_timeout_s = 10

-- `snprintf(key, sizeof(key), "%s:%u", host, port)` into 280 bytes.
abbrev pub upstream_key : Bytes → ℕ → Bytes
upstream_key host port = take 279 (host ++ (b':' ∷ decimal port))

abbrev pub new_breaker : Bytes → Breaker
new_breaker key = record {
  upstream = key;
  state = cb_closed;
  consecutive_failures = 0;
  consecutive_successes = 0;
  last_failure_time = 0;
  last_success_time = 0;
  threshold = cb_threshold_default;
  half_open_timeout_s = cb_halfopen_timeout_s;
  total_requests = 0;
  total_failures = 0;
  total_rejections = 0;
}

-- The index of the first breaker with this key.
unfoldable pub find_breaker : Bytes → List Breaker → Option ℕ
find_breaker key [] = none
find_breaker key (b ∷ bs) =
    if bytes_eq b.upstream key
    then some 0
    else elim (find_breaker key bs) [ none ↦ none | some i ↦ some (suc i) ]

create_breaker : Breakers → Bytes → Breakers × Option ℕ
create_breaker t key =
    if leb t.max_breakers (length t.breakers)
    then (t, none)
    else (record t { breakers = t.breakers ++ new_breaker key ∷ [] }, some (length t.breakers))

-- The table and the index of the breaker of host:port; `none` is NULL, no space.
unfoldable pub cb_find_or_create : Breakers → Bytes → ℕ → Breakers × Option ℕ
unfolding create_breaker
cb_find_or_create t host port = elim (find_breaker (upstream_key host port) t.breakers) [
  | some i ↦ (t, some i)
  | none ↦ create_breaker t (upstream_key host port)
]

-- The `switch` of cb_allow, on the breaker with its request counted: the new breaker, and whether
-- the call is let through.
allow_in : CbState → ℕ → Breaker → Breaker × Bool
allow_in cb_closed now cb = (cb, true)
allow_in cb_open now cb =
    if leb (cb.last_failure_time + cb.half_open_timeout_s) now
    then (record cb { state = cb_half_open; consecutive_successes = 0 }, true)
    else (record cb { total_rejections = incr64 cb.total_rejections }, false)
allow_in cb_half_open now cb = (cb, true)

unfoldable pub allow_breaker : ℕ → Breaker → Breaker × Bool
unfolding allow_in
allow_breaker now cb =
    allow_in cb.state now (record cb { total_requests = incr64 cb.total_requests })

pub success_breaker : ℕ → Breaker → Breaker
success_breaker now cb = record cb {
  state = elim cb.state [ cb_half_open ↦ cb_closed | cb_closed ↦ cb_closed | cb_open ↦ cb_open ];
  consecutive_failures = 0;
  consecutive_successes = incr32 cb.consecutive_successes;
  last_success_time = now;
}

-- The state after a failure, with the failure counted.
failed_state : CbState → ℕ → ℕ → CbState
failed_state cb_half_open failures threshold = cb_open
failed_state cb_closed failures threshold = if leb threshold failures then cb_open else cb_closed
failed_state cb_open failures threshold = cb_open

pub failure_breaker : ℕ → Breaker → Breaker
unfolding failed_state
failure_breaker now cb = record cb {
  state = failed_state cb.state (incr32 cb.consecutive_failures) cb.threshold;
  consecutive_failures = incr32 cb.consecutive_failures;
  consecutive_successes = 0;
  last_failure_time = now;
  total_failures = incr64 cb.total_failures;
}

-- A write through the pointer to entry `i`.
pub modify_breaker : (Breaker → Breaker) → Breakers → ℕ → Breakers
modify_breaker f t i = elim (get_elem? t.breakers i) [
  | none ↦ t
  | some cb ↦ record t { breakers = set t.breakers i (f cb) }
]

allow_at : ℕ → Breakers → Option ℕ → Breakers × Bool
allow_at now t none = (t, true)
allow_at now t (some i) = elim (get_elem? t.breakers i) [
  | none ↦ (t, true)
  | some cb ↦
      let (cb', allowed) = allow_breaker now cb in
      (
        record t {
          breakers = set t.breakers i cb';
          stat_cb_rejections =
              if allowed then t.stat_cb_rejections else incr64 t.stat_cb_rejections;
        },
        allowed,
      )
]

-- The answer 0 is `true`, -1 is `false`.
unfoldable pub cb_allow : ℕ → Breakers → Bytes → ℕ → Breakers × Bool
unfolding allow_at
cb_allow now t host port = let (t', found) = cb_find_or_create t host port in allow_at now t' found

modify_at : (Breaker → Breaker) → Breakers × Option ℕ → Breakers
modify_at f (t, none) = t
modify_at f (t, some i) = modify_breaker f t i

pub cb_success : ℕ → Breakers → Bytes → ℕ → Breakers
unfolding modify_at
cb_success now t host port = modify_at (success_breaker now) (cb_find_or_create t host port)

pub cb_failure : ℕ → Breakers → Bytes → ℕ → Breakers
unfolding modify_at
cb_failure now t host port = modify_at (failure_breaker now) (cb_find_or_create t host port)

-- The breaker's part in one callout of src/proxy_wasm_http.c: `vwasm_http_pool_acquire` asks
-- `cb_allow` first and returns -1 where it refuses, and `pw_proxy_http_call` reports a -1 as a
-- failure of the upstream. The two calls read the clock at `now` and at `later`.
pub guard_callout : ℕ → ℕ → Breakers → Bytes → ℕ → Breakers × Bool
guard_callout now later t host port =
    let (t', allowed) = cb_allow now t host port in
    if allowed then (t', true) else (cb_failure later t' host port, false)
