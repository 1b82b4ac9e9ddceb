-- ===== src/HttpPool/Pool/Lifetime.antt =====
-- What an acquire and a release keep of the pool, each run with nothing of another thread in between.
use vmod_wasm.Base.{
  ℕ, zero, suc, ◌≡◌, ◌≤◌, refl, ap, inl, inr, Bool, arith, ◌==◌, if◌then◌else◌, Bool-cases,
  Option-cases, length, length-set, get_elem?, replicate, Bytes,
}
use vmod_wasm.HttpPool.Breaker.{cb_allow}
use vmod_wasm.HttpPool.Breaker.Invariant.{IsValid as HasValidBreakers, cb_allow-IsValid}
use vmod_wasm.HttpPool.Conns.{empty_conn}
use vmod_wasm.HttpPool.Conns.Ownership.{IsTidy}
use vmod_wasm.HttpPool.Pool.{
  Pool, clamp_conns, new_pool, Net, ConnRef, pooled, overflow, acquire, release_conn, release,
}
use vmod_wasm.HttpPool.Pool.Safety.{acquire-Sound}
use vmod_wasm.HttpPool.Pool.Release.{release-Released}
use vmod_wasm.HttpPool.Pool.Parts.{obtain-Renewed}

-- A pool with 1 to 256 slots, whose connections in use have descriptors, whose DNS cache is within its
-- capacity and whose table of breakers is well-formed.
pub record IsValid (p : Pool) : Type 0 where
  pub some_slot : 1 ≤ length p.conns
  pub limited : length p.conns ≤ 256
  pub tidy : IsTidy p.conns
  pub bounded : length p.dns.entries ≤ p.dns.dns_cache_capacity
  pub sound : HasValidBreakers p.breakers

replicate-IsTidy : (n : ℕ) → IsTidy (replicate n empty_conn)
replicate-IsTidy zero = tt
replicate-IsTidy (suc n) = (λ e. refl, replicate-IsTidy n)

length-replicate : (n : ℕ) → length (replicate n empty_conn) ≡ n
length-replicate zero = refl
length-replicate (suc n) = ap suc (length-replicate n)

clamp_conns_bounds : (n : ℕ) → (1 ≤ clamp_conns n) × (clamp_conns n ≤ 256)
clamp_conns_bounds n = ground arith

pub new_pool-IsValid : (max_conns timeout_ms : ℕ) → IsValid (new_pool max_conns timeout_ms)
unfolding new_pool
new_pool-IsValid max_conns timeout_ms =
    let (lo, hi) = clamp_conns_bounds max_conns in
    let l = length-replicate (clamp_conns max_conns) in
    record {
      some_slot = rw l lo;
      limited = rw l hi;
      tidy = replicate-IsTidy (clamp_conns max_conns);
      bounded = omega arith;
      sound = record { bounded = omega arith; distinct = tt; sound = tt };
    }

pub acquire-IsValid :
    (net : Net) (p : Pool) (host : Bytes) (port timeout_ms : ℕ) (ssrf_exempt : Bool)
    → length host ≤ 255
    → IsValid p
    → IsValid (acquire net p host port timeout_ms ssrf_exempt).pool
unfolding acquire
acquire-IsValid net p host port timeout_ms ssrf_exempt short v =
    let asked = cb_allow net.allow_time p.breakers host port in
    let tidy = (acquire-Sound net p host port timeout_ms ssrf_exempt short v.tidy).tidy in
    let sound = cb_allow-IsValid net.allow_time p.breakers host port v.sound in
    elim (Bool-cases asked.1) [
      | inl allowed ↦
          let o =
            obtain-Renewed net host port
              (if timeout_ms == 0 then p.default_timeout_ms else timeout_ms) ssrf_exempt
              (record p { breakers = asked.0 }) in
          let tidy_after = rw (allowed, acquire) at tidy in
          rw (allowed, acquire)
            (record {
              some_slot = rw o.slots v.some_slot;
              limited = rw o.slots v.limited;
              tidy = tidy_after;
              bounded = o.bounded v.bounded;
              sound = rw o.breakers sound;
            })
      | inr rejected ↦
          rw (rejected, acquire)
            (record {
              some_slot = v.some_slot;
              limited = v.limited;
              tidy = v.tidy;
              bounded = v.bounded;
              sound = sound;
            })
    ]

pub release-IsValid :
    (time : ℕ) (p : Pool) (conn : ConnRef) (keep_alive : Bool)
    → IsValid p
    → IsValid (release time p conn keep_alive).0
unfolding release
release-IsValid time p (overflow c) keep_alive v = record {
  some_slot = v.some_slot;
  limited = v.limited;
  tidy = v.tidy;
  bounded = v.bounded;
  sound = v.sound;
}
release-IsValid time p (pooled i) keep_alive v = elim (Option-cases (get_elem? p.conns i)) [
  | inl missing ↦
      rw (missing, release)
        (record {
          some_slot = v.some_slot;
          limited = v.limited;
          tidy = v.tidy;
          bounded = v.bounded;
          sound = v.sound;
        })
  | inr (c, at) ↦
      let freed = (release_conn time c keep_alive).0 in
      let l = length-set p.conns i freed in
      let tidy = rw (at, release) at (release-Released time p i c keep_alive v.tidy at).tidy in
      rw (at, release)
        (record {
          some_slot = rw l v.some_slot;
          limited = rw l v.limited;
          tidy = tidy;
          bounded = v.bounded;
          sound = v.sound;
        })
]
