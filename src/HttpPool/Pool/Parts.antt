-- ===== src/HttpPool/Pool/Parts.antt =====
-- Which parts of the pool `acquire` changes behind the breaker's check.
use vmod_wasm.Base.{
  ℕ, suc, ◌≡◌, ◌≤◌, refl, ap, ◌∙◌, inl, inr, Bool, not, ◌&&◌, List, [], ◌∷◌, Option, none, some,
  Bool-cases, Option-cases, length, length-set, Bytes,
}
use vmod_wasm.HttpPool.Addr.{Sockaddr, addr_is_private}
use vmod_wasm.HttpPool.Conns.{Conn, Wanted, scan_reuse, inspect, find_free, oldest_idle}
use vmod_wasm.HttpPool.Conns.Ownership.{Verdict-cases}
use vmod_wasm.HttpPool.Dns.{resolve}
use vmod_wasm.HttpPool.Dns.Refresh.{resolve-bounded, resolve-capacity}
use vmod_wasm.HttpPool.Pool.{
  Pool, Net, place_overflow, place_evict, place, dial, create, wanted, obtain,
}

length-scan_reuse : (w : Wanted) (cs : List Conn) → length (scan_reuse w cs).conns ≡ length cs
unfolding scan_reuse
length-scan_reuse w [] = refl
length-scan_reuse w (c ∷ cs) =
    let ih = length-scan_reuse w cs in
    elim (Verdict-cases (inspect w c)) [
      | inl s ↦ rw (s, scan_reuse) (ap suc ih)
      | inr (inl (fd, s)) ↦ rw (s, scan_reuse) (ap suc ih)
      | inr (inr (fd, s)) ↦ rw (s, scan_reuse) refl
    ]

-- The number of slots, the DNS cache and the breakers of a pool.
record Agrees (p q : Pool) : Type 0 where
  slots : length q.conns ≡ length p.conns
  dns : q.dns ≡ p.dns
  breakers : q.breakers ≡ p.breakers

place_overflow-Agrees :
    (net : Net) (host : Bytes) (port : ℕ) (p : Pool) (closed : List ℕ) (fd : ℕ)
    → Agrees p (place_overflow net host port p closed fd).pool
unfolding place_overflow
place_overflow-Agrees net host port p closed fd = elim (Bool-cases net.calloc_ok) [
  | inl ok ↦ simp ok (record { slots = refl; dns = refl; breakers = refl })
  | inr lack ↦ simp lack (record { slots = refl; dns = refl; breakers = refl })
]

place_evict-Agrees :
    (net : Net) (host : Bytes) (port : ℕ) (p : Pool) (closed : List ℕ) (fd : ℕ)
    → Agrees p (place_evict net host port p closed fd).pool
unfolding place_evict
place_evict-Agrees net host port p closed fd =
    elim (Option-cases (oldest_idle 0 net.now none p.conns)) [
      | inl all_busy ↦ rw (all_busy, place_evict) (place_overflow-Agrees net host port p closed fd)
      | inr (i, idle) ↦
          rw (idle, place_evict)
            (record { slots = length-set p.conns i _; dns = refl; breakers = refl })
    ]

place-Agrees :
    (net : Net) (host : Bytes) (port : ℕ) (p : Pool) (closed : List ℕ) (fd : ℕ)
    → Agrees p (place net host port p closed fd).pool
unfolding place
place-Agrees net host port p closed fd = elim (Option-cases (find_free p.conns)) [
  | inl no_slot ↦ rw (no_slot, place) (place_evict-Agrees net host port p closed fd)
  | inr (i, free) ↦
      rw (free, place) (record { slots = length-set p.conns i _; dns = refl; breakers = refl })
]

dial-Agrees :
    (net : Net) (host : Bytes) (port timeout_ms : ℕ) (ssrf_exempt : Bool) (p : Pool)
    (closed : List ℕ) (found : Option Sockaddr)
    → Agrees p (dial net host port timeout_ms ssrf_exempt p closed found).pool
unfolding dial
dial-Agrees net host port timeout_ms ssrf_exempt p closed none = record {
  slots = refl;
  dns = refl;
  breakers = refl;
}
dial-Agrees net host port timeout_ms ssrf_exempt p closed (some addr) =
    elim (Bool-cases (not ssrf_exempt && addr_is_private addr)) [
      | inl private_addr ↦ rw private_addr (record { slots = refl; dns = refl; breakers = refl })
      | inr allowed ↦ elim (Option-cases (net.connect addr timeout_ms)) [
        | inl failed ↦ rw (allowed, failed) (record { slots = refl; dns = refl; breakers = refl })
        | inr (fd, connected) ↦ rw (allowed, connected) (place-Agrees net host port p closed fd)
      ]
    ]

-- What `acquire` does to the parts of the pool.
pub record Renewed (p q : Pool) : Type 0 where
  pub slots : length q.conns ≡ length p.conns
  pub bounded :
      length p.dns.entries ≤ p.dns.dns_cache_capacity
      → length q.dns.entries ≤ q.dns.dns_cache_capacity
  pub breakers : q.breakers ≡ p.breakers

create-Renewed :
    (net : Net) (host : Bytes) (port timeout_ms : ℕ) (ssrf_exempt : Bool) (p : Pool)
    (closed : List ℕ)
    → Renewed p (create net host port timeout_ms ssrf_exempt p closed).pool
unfolding create
create-Renewed net host port timeout_ms ssrf_exempt p closed =
    let looked = resolve net.getaddrinfo net.resolve_time p.dns host port in
    let a =
      dial-Agrees net host port timeout_ms ssrf_exempt (record p { dns = looked.0 }) closed
        looked.1 in
    record {
      slots = a.slots;
      bounded = λ h. rw a.dns (
          rw (resolve-capacity net.getaddrinfo net.resolve_time p.dns host port)
            (resolve-bounded net.getaddrinfo net.resolve_time p.dns host port h));
      breakers = a.breakers;
    }

pub obtain-Renewed :
    (net : Net) (host : Bytes) (port timeout_ms : ℕ) (ssrf_exempt : Bool) (p : Pool)
    → Renewed p (obtain net host port timeout_ms ssrf_exempt p).pool
unfolding obtain
obtain-Renewed net host port timeout_ms ssrf_exempt p =
    let w = wanted net host port ssrf_exempt p in
    let l = length-scan_reuse w p.conns in
    elim (Option-cases (scan_reuse w p.conns).found) [
      | inr (hit, found) ↦
          rw (found, obtain) (record { slots = l; bounded = λ h. h; breakers = refl })
      | inl nothing ↦
          let c =
            create-Renewed net host port timeout_ms ssrf_exempt
              (record p { conns = (scan_reuse w p.conns).conns }) (scan_reuse w p.conns).closed in
          rw (nothing, obtain)
            (record { slots = c.slots ∙ l; bounded = c.bounded; breakers = c.breakers })
    ]
