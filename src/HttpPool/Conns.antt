-- ===== src/HttpPool/Conns.antt =====
-- The connection slots of src/http_pool.c: the three loops of vwasm_http_pool_acquire over the slots
-- (reuse, free slot, eviction) and what they write. A file descriptor is a number, -1 is `none`;
-- each function also gives the descriptors that it closes. `now - then > d` of `time_t` is written
-- `then + d < now`.
pub mod Accounts
pub mod Ownership
use vmod_wasm.Base.{
  ℕ, zero, suc, ◌+◌, ◌<◌, Bool, true, false, not, ◌&&◌, ◌||◌, List, [], ◌∷◌, ◌++◌, Option, none,
  some, ltb, leb, ◌==◌, if◌then◌else◌, length, get_elem?, set, take, replicate, Bytes, bytes_eq,
}

pub record Conn : Type 0 where
  pub fd : Option ℕ
  pub host : Bytes
  pub port : ℕ
  pub last_used : ℕ
  pub created_at : ℕ
  pub in_use : Bool
  pub keep_alive : Bool
  pub requests_served : ℕ

-- A slot as `vwasm_http_pool_new` leaves it.
abbrev pub empty_conn : Conn
empty_conn = record {
  fd = none;
  host = [];
  port = 0;
  last_used = 0;
  created_at = 0;
  in_use = false;
  keep_alive = false;
  requests_served = 0;
}

-- What the first loop looks for, and the limits that it applies. `is_alive` is `conn_is_alive`.
pub record Wanted : Type 0 where
  pub host : Bytes
  pub port : ℕ
  pub now : ℕ
  pub ssrf_exempt : Bool
  pub max_conn_age_s : ℕ
  pub max_requests_per_conn : ℕ
  pub is_alive : ℕ → Bool

-- What the first loop does at one slot.
pub data Verdict : Type 0 where
  skip : Verdict
  drop_conn : ℕ → Verdict
  reuse : ℕ → Verdict

judge : Wanted → Conn → ℕ → Verdict
judge w c fd =
    if c.in_use
    then skip
    else if not (bytes_eq c.host w.host) || not (c.port == w.port)
    then skip
    else if ltb (c.created_at + w.max_conn_age_s) w.now
    then drop_conn fd
    else if leb w.max_requests_per_conn c.requests_served
    then drop_conn fd
    else if not (w.is_alive fd)
    then drop_conn fd
    else reuse fd

unfoldable pub inspect : Wanted → Conn → Verdict
unfolding judge
inspect w c = if not w.ssrf_exempt then skip else elim c.fd [ none ↦ skip | some fd ↦ judge w c fd ]

-- The slots after the loop, the descriptors closed, and the slot and descriptor to reuse.
pub record Scan : Type 0 where
  pub conns : List Conn
  pub closed : List ℕ
  pub found : Option (ℕ × ℕ)

abbrev pub taken : Wanted → Conn → Conn
taken w c = record c { in_use = true; last_used = w.now; requests_served = c.requests_served + 1 }

abbrev dropped : Conn → Conn
dropped c = record c { fd = none }

abbrev shifted : Option (ℕ × ℕ) → Option (ℕ × ℕ)
shifted none = none
shifted (some (i, fd)) = some (suc i, fd)

-- The loop that looks for an idle connection to reuse.
unfoldable pub scan_reuse : Wanted → List Conn → Scan
scan_reuse w [] = record { conns = []; closed = []; found = none }
scan_reuse w (c ∷ cs) =
    let rest = scan_reuse w cs in
    elim (inspect w c) [
      | skip ↦ record { conns = c ∷ rest.conns; closed = rest.closed; found = shifted rest.found }
      | drop_conn fd ↦ record {
        conns = dropped c ∷ rest.conns;
        closed = fd ∷ rest.closed;
        found = shifted rest.found;
      }
      | reuse fd ↦ record { conns = taken w c ∷ cs; closed = []; found = some (0, fd) }
    ]

-- The first slot without a descriptor.
unfoldable pub find_free : List Conn → Option ℕ
find_free [] = none
find_free (c ∷ cs) = elim c.fd [
  | none ↦ some 0
  | some fd ↦ elim (find_free cs) [ none ↦ none | some i ↦ some (suc i) ]
]

is_idle : Conn → Bool
is_idle c = elim c.fd [ none ↦ false | some fd ↦ not c.in_use ]

-- The loop that looks for the idle connection to evict: `i` is the slot that comes next.
pub oldest_idle : ℕ → ℕ → Option ℕ → List Conn → Option ℕ
unfolding is_idle
oldest_idle i oldest_time best [] = best
oldest_idle i oldest_time best (c ∷ cs) =
    let better = is_idle c && leb c.last_used oldest_time in
    oldest_idle (i + 1) (if better then c.last_used else oldest_time)
      (if better then some i else best) cs

-- What is written into the slot of a new connection, and into a connection of its own.
abbrev pub fresh_conn : ℕ → Bytes → ℕ → ℕ → Bool → Conn
fresh_conn fd host port now keep_alive = record {
  fd = some fd;
  host = take 255 host;
  port = port;
  last_used = now;
  created_at = now;
  in_use = true;
  keep_alive = keep_alive;
  requests_served = 1;
}

-- The descriptor that a write over slot `i` closes.
pub closed_fd : List Conn → ℕ → List ℕ
closed_fd cs i = elim (get_elem? cs i) [
  | none ↦ []
  | some c ↦ elim c.fd [ none ↦ [] | some fd ↦ fd ∷ [] ]
]
