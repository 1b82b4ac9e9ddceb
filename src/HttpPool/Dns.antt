-- ===== src/HttpPool/Dns.antt =====
-- The DNS cache of src/http_pool.c: vwasm_http_pool_resolve. `getaddrinfo` is a parameter, from the
-- host and the port to the first address that it finds. The cache is read and then written under
-- `dns_lock`, and unlocked between; the model takes both parts as one step. A `now - then < d` of
-- `time_t` is written `now < then + d`.
pub mod Refresh
use vmod_wasm.Base.{
  ℕ, zero, suc, ◌+◌, ◌≤◌, ◌<◌, ◌≡◌, ◌≢◌, refl, sym, ap, ◌∙◌, inl, inr, Bool, true, false, ◌&&◌,
  List, [], ◌∷◌, ◌++◌, Option, none, some, arith, ltb, leb, ◌==◌, if◌then◌else◌, Bool-cases,
  Option-cases, incr64, length, length-append, length-set, get_elem?, set, take, take_all, Bytes,
  bytes_eq, bytes_eq_iff, bytes_eq_refl,
}
use vmod_wasm.HttpPool.Addr.{Sockaddr, no_addr, inet, inet6, other_family}

pub record DnsEntry : Type 0 where
  pub host : Bytes
  pub addr : Sockaddr
  pub resolved_at : ℕ
  pub valid : Bool

-- `entries` holds the first `dns_cache_size` entries of the array.
pub record DnsCache : Type 0 where
  pub entries : List DnsEntry
  pub dns_cache_capacity : ℕ
  pub dns_ttl_s : ℕ
  pub stat_dns_hits : ℕ
  pub stat_dns_misses : ℕ

-- Set the port in the cached address.
unfoldable pub set_port : ℕ → Sockaddr → Sockaddr
set_port port (inet ip _) = inet ip port
set_port port (inet6 b _) = inet6 b port
set_port port no_addr = no_addr
set_port port other_family = other_family

abbrev is_fresh : ℕ → ℕ → DnsEntry → Bool
is_fresh now ttl e = ltb now (e.resolved_at + ttl)

-- The first valid and fresh entry of the host.
unfoldable pub find_fresh : ℕ → ℕ → Bytes → List DnsEntry → Option Sockaddr
find_fresh now ttl host [] = none
find_fresh now ttl host (e ∷ es) =
    if e.valid && (bytes_eq e.host host && is_fresh now ttl e)
    then some e.addr
    else find_fresh now ttl host es

-- The first entry of the host, whether fresh or not.
find_slot : Bytes → List DnsEntry → Option ℕ
find_slot host [] = none
find_slot host (e ∷ es) =
    if bytes_eq e.host host
    then some 0
    else elim (find_slot host es) [ none ↦ none | some i ↦ some (suc i) ]

-- The entry goes into the slot of the host, else behind the last, else over the first.
store_entry : DnsCache → DnsEntry → Option ℕ → DnsCache
store_entry d e (some i) = record d { entries = set d.entries i e }
store_entry d e none =
    if ltb (length d.entries) d.dns_cache_capacity
    then record d { entries = d.entries ++ e ∷ [] }
    else record d { entries = set d.entries 0 e }

-- `host` is cut to the 255 bytes that the entry holds.
abbrev new_entry : ℕ → Bytes → Sockaddr → DnsEntry
new_entry now host addr = record {
  host = take 255 host;
  addr = addr;
  resolved_at = now;
  valid = true;
}

-- `none` is the answer -1.
resolve_miss : ℕ → DnsCache → Bytes → Option Sockaddr → DnsCache × Option Sockaddr
unfolding store_entry
resolve_miss now d host none = (d, none)
resolve_miss now d host (some addr) =
    (store_entry d (new_entry now host addr) (find_slot host d.entries), some addr)

unfoldable pub resolve :
    (Bytes → ℕ → Option Sockaddr) → ℕ → DnsCache → Bytes → ℕ → DnsCache × Option Sockaddr
unfolding find_fresh find_slot resolve_miss
resolve getaddrinfo now d host port = elim (find_fresh now d.dns_ttl_s host d.entries) [
  | some addr ↦ (record d { stat_dns_hits = incr64 d.stat_dns_hits }, some (set_port port addr))
  | none ↦
      resolve_miss now (record d { stat_dns_misses = incr64 d.stat_dns_misses }) host
        (getaddrinfo host port)
]
