-- ===== src/HttpPool/Pool.antt =====
-- The pool of src/http_pool.c as a whole: vwasm_http_pool_new, vwasm_http_pool_acquire,
-- vwasm_http_pool_release and vwasm_http_pool_close, each run with nothing of another thread in between; the
-- steps of a release, which holds no lock while it changes its connection, interleave in HttpPool/Pool/Races.antt.
-- What the operating system does in the course of `acquire` is the record `Net`.
pub mod Safety
pub mod Ssrf
pub mod Release
pub mod Parts
pub mod Lifetime
pub mod Races
use vmod_wasm.Base.{
  ℕ, zero, suc, ◌+◌, Bool, true, false, not, ◌&&◌, ◌||◌, List, [], ◌∷◌, ◌++◌, Option, none, some,
  ltb, leb, ◌==◌, if◌then◌else◌, incr64, length, get_elem?, set, replicate, Bytes,
}
use vmod_wasm.HttpPool.Addr.{Sockaddr, addr_is_private}
use vmod_wasm.HttpPool.Breaker.{Breakers, cb_allow}
use vmod_wasm.HttpPool.Conns.{
  Conn, empty_conn, Wanted, Scan, scan_reuse, find_free, oldest_idle, fresh_conn, closed_fd,
}
use vmod_wasm.HttpPool.Dns.{DnsCache, resolve}

pub record Pool : Type 0 where
  pub conns : List Conn
  pub num_active : ℕ
  pub dns : DnsCache
  pub breakers : Breakers
  pub default_timeout_ms : ℕ
  pub max_requests_per_conn : ℕ
  pub max_conn_age_s : ℕ
  pub stat_acquires : ℕ
  pub stat_releases : ℕ
  pub stat_creates : ℕ
  pub stat_reuses : ℕ
  pub stat_evictions : ℕ

-- The clamped arguments of `vwasm_http_pool_new`, and the pool where every allocation succeeds.
abbrev clamp_conns : ℕ → ℕ
clamp_conns n = let m : ℕ = if n == 0 then 16 else n in if ltb 256 m then 256 else m

unfoldable pub new_pool : ℕ → ℕ → Pool
new_pool max_conns timeout_ms = record {
  conns = replicate (clamp_conns max_conns) empty_conn;
  num_active = 0;
  dns = record {
    entries = [];
    dns_cache_capacity = 64;
    dns_ttl_s = 60;
    stat_dns_hits = 0;
    stat_dns_misses = 0;
  };
  breakers = record { breakers = []; max_breakers = 32; stat_cb_rejections = 0 };
  default_timeout_ms = if timeout_ms == 0 then 1000 else timeout_ms;
  max_requests_per_conn = 100;
  max_conn_age_s = 300;
  stat_acquires = 0;
  stat_releases = 0;
  stat_creates = 0;
  stat_reuses = 0;
  stat_evictions = 0;
}

-- `connect` is `connect_with_timeout`, from the address and the timeout to a descriptor;
-- `calloc_ok` says whether the allocation of an overflow connection succeeds; the clock is read by
-- `cb_allow`, by `acquire` and by `resolve`.
pub record Net : Type 0 where
  pub getaddrinfo : Bytes → ℕ → Option Sockaddr
  pub connect : Sockaddr → ℕ → Option ℕ
  pub is_alive : ℕ → Bool
  pub calloc_ok : Bool
  pub allow_time : ℕ
  pub now : ℕ
  pub resolve_time : ℕ

-- Where a connection stands: in a slot, or in memory of its own.
pub data ConnRef : Type 0 where
  pooled : ℕ → ConnRef
  overflow : Conn → ConnRef

-- The pool after the call, the descriptors that the call opened and closed, and its answer.
pub record Acquired : Type 0 where
  pub pool : Pool
  pub opened : List ℕ
  pub closed : List ℕ
  pub result : Option (ℕ × ConnRef)

abbrev refused : Pool → List ℕ → Acquired
refused p closed = record { pool = p; opened = []; closed = closed; result = none }

-- Both statistics of a connection made.
abbrev created : Pool → Pool
created p = record p {
  stat_creates = incr64 p.stat_creates;
  stat_acquires = incr64 p.stat_acquires;
}

-- The connection gets memory of its own.
place_overflow : Net → Bytes → ℕ → Pool → List ℕ → ℕ → Acquired
place_overflow net host port p closed fd =
    if net.calloc_ok
    then record {
      pool = created p;
      opened = fd ∷ [];
      closed = closed;
      result = some (fd, overflow (fresh_conn fd host port net.now false));
    }
    else record { pool = p; opened = fd ∷ []; closed = fd ∷ closed; result = none }

-- The oldest idle connection is evicted.
place_evict : Net → Bytes → ℕ → Pool → List ℕ → ℕ → Acquired
unfolding place_overflow
place_evict net host port p closed fd = elim (oldest_idle 0 net.now none p.conns) [
  | none ↦ place_overflow net host port p closed fd
  | some i ↦ record {
    pool = created (record p {
      conns = set p.conns i (fresh_conn fd host port net.now true);
      stat_evictions = incr64 p.stat_evictions;
    });
    opened = fd ∷ [];
    closed = closed_fd p.conns i ++ closed;
    result = some (fd, pooled i);
  }
]

-- The new connection goes into a free slot.
place : Net → Bytes → ℕ → Pool → List ℕ → ℕ → Acquired
unfolding place_evict
place net host port p closed fd = elim (find_free p.conns) [
  | none ↦ place_evict net host port p closed fd
  | some i ↦ record {
    pool = created (record p {
      conns = set p.conns i (fresh_conn fd host port net.now true);
      num_active = incr64 p.num_active;
    });
    opened = fd ∷ [];
    closed = closed;
    result = some (fd, pooled i);
  }
]

-- The address is checked and connected to.
dial : Net → Bytes → ℕ → ℕ → Bool → Pool → List ℕ → Option Sockaddr → Acquired
unfolding place
dial net host port timeout_ms ssrf_exempt p closed none = refused p closed
dial net host port timeout_ms ssrf_exempt p closed (some addr) =
    if not ssrf_exempt && addr_is_private addr
    then refused p closed
    else elim (net.connect addr timeout_ms) [
      | none ↦ refused p closed
      | some fd ↦ place net host port p closed fd
    ]

create : Net → Bytes → ℕ → ℕ → Bool → Pool → List ℕ → Acquired
unfolding dial
create net host port timeout_ms ssrf_exempt p closed =
    let (dns', addr) = resolve net.getaddrinfo net.resolve_time p.dns host port in
    dial net host port timeout_ms ssrf_exempt (record p { dns = dns' }) closed addr

abbrev pub wanted : Net → Bytes → ℕ → Bool → Pool → Wanted
wanted net host port ssrf_exempt p = record {
  host = host;
  port = port;
  now = net.now;
  ssrf_exempt = ssrf_exempt;
  max_conn_age_s = p.max_conn_age_s;
  max_requests_per_conn = p.max_requests_per_conn;
  is_alive = net.is_alive;
}

-- An idle connection, else a new one.
pub obtain : Net → Bytes → ℕ → ℕ → Bool → Pool → Acquired
unfolding create
obtain net host port timeout_ms ssrf_exempt p =
    let s = scan_reuse (wanted net host port ssrf_exempt p) p.conns in
    let scanned = record p { conns = s.conns } in
    elim s.found [
      | some (i, fd) ↦ record {
        pool = record scanned {
          stat_reuses = incr64 p.stat_reuses;
          stat_acquires = incr64 p.stat_acquires;
        };
        opened = [];
        closed = s.closed;
        result = some (fd, pooled i);
      }
      | none ↦ create net host port timeout_ms ssrf_exempt scanned s.closed
    ]

-- The result `none` is -1 with no connection.
unfoldable pub acquire : Net → Pool → Bytes → ℕ → ℕ → Bool → Acquired
unfolding obtain
acquire net p host port timeout_ms ssrf_exempt =
    let (breakers', allowed) = cb_allow net.allow_time p.breakers host port in
    let p' = record p { breakers = breakers' } in
    if allowed
    then obtain net host port (if timeout_ms == 0 then p.default_timeout_ms else timeout_ms)
        ssrf_exempt p'
    else refused p' []

-- A connection after its release, and the descriptor closed, with nothing of another thread in between: no lock
-- is held. `release_time` is the clock.
release_conn : ℕ → Conn → Bool → Conn × List ℕ
release_conn release_time c keep_alive = elim c.fd [
  | none ↦ (record c { in_use = false }, [])
  | some fd ↦
      if not keep_alive || not c.keep_alive
      then (record c { fd = none; in_use = false }, fd ∷ [])
      else (record c { in_use = false; last_used = release_time }, [])
]

-- A connection in memory of its own is closed in any case, and freed.
release_overflow : Conn → List ℕ
release_overflow c = elim c.fd [ none ↦ [] | some fd ↦ fd ∷ [] ]

-- The pool and the descriptors closed, where no other thread runs between the steps of the release.
pub release : ℕ → Pool → ConnRef → Bool → Pool × List ℕ
unfolding release_conn release_overflow
release release_time p (overflow c) keep_alive =
    (record p { stat_releases = incr64 p.stat_releases }, release_overflow c)
release release_time p (pooled i) keep_alive = elim (get_elem? p.conns i) [
  | none ↦ (record p { stat_releases = incr64 p.stat_releases }, [])
  | some c ↦
      let (c', closed) = release_conn release_time c keep_alive in
      (record p { conns = set p.conns i c'; stat_releases = incr64 p.stat_releases }, closed)
]

pub close_conn : ℕ → Pool → ConnRef → Pool × List ℕ
unfolding release
close_conn release_time p conn = release release_time p conn false

-- The descriptors that `vwasm_http_pool_destroy` closes; the rest of it frees memory.
close_all : List Conn → List ℕ
close_all [] = []
close_all (c ∷ cs) = elim c.fd [ none ↦ close_all cs | some fd ↦ fd ∷ close_all cs ]

pub destroy : Pool → List ℕ
unfolding close_all
destroy p = close_all p.conns
