-- ===== src/Tests/Conns.antt =====
-- The pool with a network that always connects.
use vmod_wasm.Base.{
  ℕ, ◌≡◌, refl, true, false, List, [], ◌∷◌, ◌++◌, replicate, Option, some, arith, Bytes, codes,
}
use vmod_wasm.Base.Decimal.{decimal}
use vmod_wasm.HttpPool.Addr.{
  Sockaddr, inet, inet6, addr_is_private, in_blocks, private_blocks, addr_is_private-in_blocks,
}
use vmod_wasm.HttpPool.Breaker.{cb_allow, cb_find_or_create, find_breaker, allow_breaker}
use vmod_wasm.HttpPool.Conns.{Conn, empty_conn, scan_reuse, inspect, find_free}
use vmod_wasm.HttpPool.Dns.{DnsCache, resolve}
use vmod_wasm.HttpPool.Pool.{new_pool, Pool, Net, pooled, acquire}
use vmod_wasm.HttpPool.Pool.Safety.{Sound, acquire-Sound}
use vmod_wasm.HttpPool.Pool.Ssrf.{Public, acquire-Public}
use vmod_wasm.HttpPool.Pool.Races.{
  Event, acquires, begins, steps, closes, clears, frees, touches, happen, release_step, run,
  new_world, IsSound, run_events-IsSound,
}

abbrev host : Bytes
host = codes "api.test"

-- 93.184.216.34.
abbrev address : ℕ
address = 1572395042

abbrev no_dns : DnsCache
no_dns = record {
  entries = [];
  dns_cache_capacity = 64;
  dns_ttl_s = 60;
  stat_dns_hits = 0;
  stat_dns_misses = 0;
}

abbrev lookup : Bytes → ℕ → Option Sockaddr
lookup name port = some (inet address port)

abbrev test_net : Net
test_net = record {
  getaddrinfo = lookup;
  connect = λ addr timeout. some 7;
  is_alive = λ fd. true;
  calloc_ok = true;
  allow_time = 1000;
  now = 1000;
  resolve_time = 1000;
}

abbrev busy : Conn
busy = record empty_conn { fd = some 5; host = host; port = 80; in_use = true; keep_alive = true }

abbrev test_pool : Pool
test_pool = record {
  conns = busy ∷ empty_conn ∷ [];
  num_active = 1;
  dns = no_dns;
  breakers = record { breakers = []; max_breakers = 32; stat_cb_rejections = 0 };
  default_timeout_ms = 1000;
  max_requests_per_conn = 100;
  max_conn_age_s = 300;
  stat_acquires = 1;
  stat_releases = 0;
  stat_creates = 1;
  stat_reuses = 0;
  stat_evictions = 0;
}

acquire-Sound_example :
    Sound host 80 test_pool.conns [] (acquire test_net test_pool host 80 0 false)
acquire-Sound_example =
    acquire-Sound test_net test_pool host 80 0 false (omega arith)
      ((λ e. absurd (cc e)), ((λ e. refl), tt))

acquire_places : (acquire test_net test_pool host 80 0 false).result ≡ some (7, pooled 1)
unfolding acquire cb_allow cb_find_or_create find_breaker allow_breaker resolve addr_is_private
    scan_reuse inspect find_free
acquire_places = refl

acquire-Public_example : Public test_net test_pool host 80 7
acquire-Public_example = acquire-Public test_net test_pool host 80 0 acquire_places

addr_is_private-in_blocks_example :
    addr_is_private (inet address 80) ≡ in_blocks address private_blocks
addr_is_private-in_blocks_example = addr_is_private-in_blocks address 80

-- ::ffff:10.0.0.1.
abbrev mapped : Bytes
mapped = replicate 10 0 ++ 255 ∷ 255 ∷ 10 ∷ 0 ∷ 0 ∷ 1 ∷ []

mapped_private : addr_is_private (inet6 mapped 80) ≡ true
unfolding addr_is_private
mapped_private = refl

abbrev second_net : Net
second_net = record test_net { connect = λ addr timeout. some 8 }

-- A second client gets the connection while the first is between the steps of its release.
abbrev kept_release : List Event
kept_release =
    acquires test_net host 80 0 true
    ∷ begins
    ∷ steps 0 frees
    ∷ acquires second_net host 80 0 true
    ∷ steps 0 (touches 1010)
    ∷ []

run_events-IsSound_example : IsSound (run (new_world 1 0) kept_release)
run_events-IsSound_example =
    run_events-IsSound 1 0 kept_release (omega arith, (tt, (omega arith, (tt, tt))))

-- A second client dials while the first is closing its connection, before in_use is reset.
abbrev closing : List Event
closing = acquires test_net host 80 0 true ∷ begins ∷ steps 0 closes ∷ steps 0 clears ∷ []

abbrev closed_late : List Event
closed_late = closing ++ (acquires second_net host 80 0 true ∷ steps 0 frees ∷ [])

-- It gets slot 0; the late reset then marks its connection idle, and a third client gets the same descriptor.
shared_descriptor :
    ((acquire second_net (run (new_world 1 0) closing).pool host 80 0 true).result
      ≡ some (8, pooled 0))
    × ((acquire second_net (run (new_world 1 0) closed_late).pool host 80 0 true).result
        ≡ some (8, pooled 0))
unfolding acquire cb_allow cb_find_or_create find_breaker allow_breaker resolve addr_is_private
    scan_reuse inspect find_free run happen release_step new_pool decimal
shared_descriptor = (refl, refl)
