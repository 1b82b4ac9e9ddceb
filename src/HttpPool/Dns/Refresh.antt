-- ===== src/HttpPool/Dns/Refresh.antt =====
-- What is resolved is served from the cache until it is too old, and the cache stays within its
-- capacity.
use vmod_wasm.Base.{
  ℕ, zero, suc, ◌+◌, ◌≤◌, ◌<◌, ◌≡◌, refl, inl, inr, true, List, [], ◌∷◌, ◌++◌, Option, none, some,
  arith, ltb, Bool-cases, Option-cases, incr64, length, length-append, length-set, set, take_all,
  Bytes, bytes_eq, bytes_eq_refl,
}
use vmod_wasm.HttpPool.Addr.{Sockaddr}
use vmod_wasm.HttpPool.Dns.{
  DnsEntry, DnsCache, set_port, find_fresh, find_slot, store_entry, new_entry, resolve_miss,
  resolve,
}

-- The entry is written where `find_fresh` finds it first.
find_fresh-set :
    (now ttl : ℕ) (host : Bytes) (es : List DnsEntry) (i : ℕ) (e : DnsEntry)
    → find_slot host es ≡ some i
    → e.valid ≡ true
    → e.host ≡ host
    → now < e.resolved_at + ttl
    → find_fresh now ttl host (set es i e) ≡ some e.addr
unfolding find_fresh find_slot
find_fresh-set now ttl host [] i e s v h f = absurd (cc)
find_fresh-set now ttl host (x ∷ es) zero e s v h f =
    let r = bytes_eq_refl host in rw (v, h, r) (ground arith)
find_fresh-set now ttl host (x ∷ es) (suc i) e s v h f = elim (Bool-cases (bytes_eq x.host host)) [
  | inl hit ↦ absurd (ground arith)
  | inr miss ↦ elim (Option-cases (find_slot host es)) [
    | inl nothing ↦ absurd (ground arith)
    | inr (j, found) ↦
        let ih = find_fresh-set now ttl host es i e (ground arith) v h f in ground arith
  ]
]

find_fresh-concat :
    (now ttl : ℕ) (host : Bytes) (es : List DnsEntry) (e : DnsEntry)
    → find_slot host es ≡ none
    → e.valid ≡ true
    → e.host ≡ host
    → now < e.resolved_at + ttl
    → find_fresh now ttl host (es ++ e ∷ []) ≡ some e.addr
unfolding find_fresh find_slot
find_fresh-concat now ttl host [] e s v h f =
    let r = bytes_eq_refl host in rw (v, h, r) (ground arith)
find_fresh-concat now ttl host (x ∷ es) e s v h f =
    ground (arith, find_fresh-concat now ttl host es e)

find_fresh-set_first :
    (now ttl : ℕ) (host : Bytes) (es : List DnsEntry) (e : DnsEntry)
    → 0 < length es
    → e.valid ≡ true
    → e.host ≡ host
    → now < e.resolved_at + ttl
    → find_fresh now ttl host (set es 0 e) ≡ some e.addr
unfolding find_fresh
find_fresh-set_first now ttl host [] e pos v h f = absurd (omega arith)
find_fresh-set_first now ttl host (x ∷ es) e pos v h f =
    let r = bytes_eq_refl host in rw (v, h, r) (ground arith)

find_fresh-store_entry :
    (now : ℕ) (d : DnsCache) (host : Bytes) (e : DnsEntry)
    → 0 < d.dns_cache_capacity
    → e.valid ≡ true
    → e.host ≡ host
    → now < e.resolved_at + d.dns_ttl_s
    → find_fresh now d.dns_ttl_s host (store_entry d e (find_slot host d.entries)).entries
      ≡ some e.addr
unfolding store_entry
find_fresh-store_entry now d host e cap v h f = elim (Option-cases (find_slot host d.entries)) [
  | inr (i, found) ↦
      rw (found, store_entry) (find_fresh-set now d.dns_ttl_s host d.entries i e found v h f)
  | inl nothing ↦ elim (Bool-cases (ltb (length d.entries) d.dns_cache_capacity)) [
    | inl room ↦
        rw (nothing, store_entry)
          (rw room (find_fresh-concat now d.dns_ttl_s host d.entries e nothing v h f))
    | inr full ↦
        rw (nothing, store_entry)
          (rw full (find_fresh-set_first now d.dns_ttl_s host d.entries e (ground arith) v h f))
  ]
]

-- The cache after a lookup that had to ask the resolver and was answered with `addr`.
resolve_missed :
    (getaddrinfo : Bytes → ℕ → Option Sockaddr) (now : ℕ) (d : DnsCache) (host : Bytes) (port : ℕ)
    {addr : Sockaddr}
    → find_fresh now d.dns_ttl_s host d.entries ≡ none
    → getaddrinfo host port ≡ some addr
    → resolve getaddrinfo now d host port ≡ (
      store_entry
          (record d { stat_dns_misses = incr64 d.stat_dns_misses })
          (new_entry now host addr)
          (find_slot host d.entries),
      some addr,
    )
unfolding resolve
resolve_missed getaddrinfo now d host port m a = rw (m, resolve) (rw (a, resolve_miss))

resolve_failed :
    (getaddrinfo : Bytes → ℕ → Option Sockaddr) (now : ℕ) (d : DnsCache) (host : Bytes) (port : ℕ)
    → find_fresh now d.dns_ttl_s host d.entries ≡ none
    → getaddrinfo host port ≡ none
    → resolve getaddrinfo now d host port
      ≡ (record d { stat_dns_misses = incr64 d.stat_dns_misses }, none)
unfolding resolve
resolve_failed getaddrinfo now d host port m a = rw (m, resolve) (rw (a, resolve_miss))

resolve_hit :
    (getaddrinfo : Bytes → ℕ → Option Sockaddr) (now : ℕ) (d : DnsCache) (host : Bytes) (port : ℕ)
    {addr : Sockaddr}
    → find_fresh now d.dns_ttl_s host d.entries ≡ some addr
    → resolve getaddrinfo now d host port
      ≡ (record d { stat_dns_hits = incr64 d.stat_dns_hits }, some (set_port port addr))
unfolding resolve
resolve_hit getaddrinfo now d host port h = rw (h, resolve)

store_entry_ttl :
    (d : DnsCache) (e : DnsEntry) (i : Option ℕ) → (store_entry d e i).dns_ttl_s ≡ d.dns_ttl_s
unfolding store_entry
store_entry_ttl d e none = ground arith
store_entry_ttl d e (some i) = refl

length-store_entry :
    (d : DnsCache) (e : DnsEntry) (i : Option ℕ)
    → length d.entries ≤ d.dns_cache_capacity
    → length (store_entry d e i).entries ≤ d.dns_cache_capacity
unfolding store_entry
length-store_entry d e none h =
    ground (arith, length-append d.entries (e ∷ []), length-set d.entries 0 e)
length-store_entry d e (some i) h = ground (arith, length-set d.entries i e)

-- A lookup that had to ask the resolver leaves a cache from which the host is served, with the same
-- address and the port asked for, until `dns_ttl_s` has passed, whatever the resolver then says. The
-- host has at most 255 bytes and the cache has a slot.
pub resolve-resolve :
    (getaddrinfo later_answers : Bytes → ℕ → Option Sockaddr) (now later : ℕ) (d : DnsCache)
    (host : Bytes) (port later_port : ℕ) {addr : Sockaddr}
    → 0 < d.dns_cache_capacity
    → length host ≤ 255
    → find_fresh now d.dns_ttl_s host d.entries ≡ none
    → getaddrinfo host port ≡ some addr
    → later < now + d.dns_ttl_s
    → let cached = (resolve getaddrinfo now d host port).0 in
      resolve later_answers later cached host later_port ≡ (
        record cached { stat_dns_hits = incr64 cached.stat_dns_hits },
        some (set_port later_port addr),
      )
resolve-resolve getaddrinfo later_answers now later d host port later_port {addr} cap short miss
      found fresh =
    let asked = record d { stat_dns_misses = incr64 d.stat_dns_misses } in
    let stored = store_entry asked (new_entry now host addr) (find_slot host d.entries) in
    let served : find_fresh later d.dns_ttl_s host stored.entries ≡ some addr =
      find_fresh-store_entry later asked host (new_entry now host addr) cap refl
        (take_all 255 host short) fresh in
    rw (resolve_missed getaddrinfo now d host port miss found) (
      resolve_hit later_answers later stored host later_port
        (rw (store_entry_ttl asked (new_entry now host addr) (find_slot host d.entries)) served))

-- A lookup never grows the cache beyond its capacity.
pub resolve-bounded :
    (getaddrinfo : Bytes → ℕ → Option Sockaddr) (now : ℕ) (d : DnsCache) (host : Bytes) (port : ℕ)
    → length d.entries ≤ d.dns_cache_capacity
    → length (resolve getaddrinfo now d host port).0.entries ≤ d.dns_cache_capacity
resolve-bounded getaddrinfo now d host port h =
    elim (Option-cases (find_fresh now d.dns_ttl_s host d.entries)) [
      | inr (addr, hit) ↦ rw (resolve_hit getaddrinfo now d host port hit) h
      | inl miss ↦ elim (Option-cases (getaddrinfo host port)) [
        | inl failed ↦ rw (resolve_failed getaddrinfo now d host port miss failed) h
        | inr (addr, found) ↦ rw (resolve_missed getaddrinfo now d host port miss found) (
            length-store_entry (record d { stat_dns_misses = incr64 d.stat_dns_misses })
              (new_entry now host addr) (find_slot host d.entries) h)
      ]
    ]

store_entry_capacity :
    (d : DnsCache) (e : DnsEntry) (i : Option ℕ)
    → (store_entry d e i).dns_cache_capacity ≡ d.dns_cache_capacity
unfolding store_entry
store_entry_capacity d e none = ground arith
store_entry_capacity d e (some i) = refl

-- The capacity of the cache is never changed.
pub resolve-capacity :
    (getaddrinfo : Bytes → ℕ → Option Sockaddr) (now : ℕ) (d : DnsCache) (host : Bytes) (port : ℕ)
    → (resolve getaddrinfo now d host port).0.dns_cache_capacity ≡ d.dns_cache_capacity
resolve-capacity getaddrinfo now d host port =
    elim (Option-cases (find_fresh now d.dns_ttl_s host d.entries)) [
      | inr (addr, hit) ↦ rw (resolve_hit getaddrinfo now d host port hit) refl
      | inl miss ↦ elim (Option-cases (getaddrinfo host port)) [
        | inl failed ↦ rw (resolve_failed getaddrinfo now d host port miss failed) refl
        | inr (addr, found) ↦ rw (resolve_missed getaddrinfo now d host port miss found) (
            store_entry_capacity (record d { stat_dns_misses = incr64 d.stat_dns_misses })
              (new_entry now host addr) (find_slot host d.entries))
      ]
    ]
