-- ===== src/HttpPool/Pool/Races.antt =====
-- vwasm_http_pool_release as the steps that it takes without a lock, between which other threads run.
use vmod_wasm.Base.{
  ℕ, zero, suc, ◌+◌, ◌≤◌, ◌≡◌, refl, inl, inr, Bool, false, not, ◌||◌, List, [], ◌∷◌, ◌++◌, Option,
  none, some, arith, if◌then◌else◌, incr64, Bool-cases, Option-cases, length, length-set, get_elem?,
  set, replicate, Bytes,
}
use vmod_wasm.HttpPool.Conns.{Conn, empty_conn}
use vmod_wasm.HttpPool.Conns.Accounts.{count_fd, holds_fd, count_conns, count_fd-append, set-count}
use vmod_wasm.HttpPool.Conns.Ownership.{set-IsTidy, IsTidy-get_elem?}
use vmod_wasm.HttpPool.Pool.{
  Pool, clamp_conns, new_pool, Net, ConnRef, pooled, overflow, acquire, release_conn,
}
use vmod_wasm.HttpPool.Pool.Safety.{count_overflow, acquire-Sound}
use vmod_wasm.HttpPool.Pool.Lifetime.{IsValid, new_pool-IsValid, acquire-IsValid}

-- The descriptor is closed; it is set to -1; in_use is set to 0; last_used is set to the clock.
pub data ReleaseStep : Type 0 where
  closes clears frees : ReleaseStep
  touches : (time : ℕ) → ReleaseStep

abbrev pub held_fd : Option ℕ → List ℕ
held_fd none = []
held_fd (some fd) = fd ∷ []

-- The connection after a step, and the descriptor closed.
unfoldable pub release_step : ReleaseStep → Conn → Conn × List ℕ
release_step closes c = (c, held_fd c.fd)
release_step clears c = (record c { fd = none }, [])
release_step frees c = (record c { in_use = false }, [])
release_step (touches time) c = (record c { last_used = time }, [])

-- The steps of a release that finds its connection so.
pub release_steps : ℕ → Conn → Bool → List ReleaseStep
release_steps time c keep_alive = elim c.fd [
  | none ↦ frees ∷ []
  | some fd ↦
      if not keep_alive || not c.keep_alive
      then closes ∷ clears ∷ frees ∷ []
      else frees ∷ touches time ∷ []
]

abbrev run_steps : List ReleaseStep → Conn → Conn × List ℕ
run_steps [] c = (c, [])
run_steps (s ∷ ss) c =
    let (c', fds) = release_step s c in let (c'', fds') = run_steps ss c' in (c'', fds ++ fds')

-- `release_conn` is the steps of a release with nothing in between.
release_conn-run_steps :
    (time : ℕ) (c : Conn) (keep_alive : Bool)
    → release_conn time c keep_alive ≡ run_steps (release_steps time c keep_alive) c
unfolding release_conn release_steps release_step
release_conn-run_steps time c keep_alive = elim (Option-cases c.fd) [
  | inl no_fd ↦ rw no_fd refl
  | inr (fd, held) ↦ elim (Bool-cases (not keep_alive || not c.keep_alive)) [
    | inl drop ↦ rw (held, drop) refl
    | inr keep ↦ rw (held, keep) refl
  ]
]

-- What any thread may do next. An acquire is taken as a whole; a release begins by counting itself, and then
-- takes its steps on slot `i`.
pub data Event : Type 0 where
  acquires : (net : Net) (host : Bytes) (port timeout_ms : ℕ) (ssrf_exempt : Bool) → Event
  begins : Event
  steps : (i : ℕ) (s : ReleaseStep) → Event

-- The pool, the descriptors opened and closed so far, and those handed out with a connection that has no slot.
pub record World : Type 0 where
  pub pool : Pool
  pub opened : List ℕ
  pub closed : List ℕ
  pub apart : List ℕ

abbrev apart_fd : Option (ℕ × ConnRef) → List ℕ
apart_fd none = []
apart_fd (some (fd, pooled i)) = []
apart_fd (some (fd, overflow c)) = held_fd c.fd

step_slot : World → ℕ → ReleaseStep → World
step_slot w i s = elim (get_elem? w.pool.conns i) [
  | none ↦ w
  | some c ↦ record w {
    pool = record w.pool { conns = set w.pool.conns i (release_step s c).0 };
    closed = (release_step s c).1 ++ w.closed;
  }
]

unfoldable pub happen : World → Event → World
unfolding step_slot
happen w (acquires net host port timeout_ms ssrf_exempt) =
    let a = acquire net w.pool host port timeout_ms ssrf_exempt in
    record {
      pool = a.pool;
      opened = a.opened ++ w.opened;
      closed = a.closed ++ w.closed;
      apart = apart_fd a.result ++ w.apart;
    }
happen w begins = record w { pool = record w.pool { stat_releases = incr64 w.pool.stat_releases } }
happen w (steps i s) = step_slot w i s

unfoldable pub run : World → List Event → World
run w [] = w
run w (e ∷ es) = run (happen w e) es

abbrev pub new_world : ℕ → ℕ → World
new_world max_conns timeout_ms = record {
  pool = new_pool max_conns timeout_ms;
  opened = [];
  closed = [];
  apart = [];
}

-- The pool is well-formed, and every descriptor is in its place.
pub record IsSound (w : World) : Type 0 where
  pub valid : IsValid w.pool
  pub accounted :
      (x : ℕ)
      → count_conns x w.pool.conns + count_fd x w.closed + count_fd x w.apart ≡ count_fd x w.opened

-- The steps of a release that keeps its connection.
abbrev pub IsKeeping : ReleaseStep → Type 0
IsKeeping closes = ⊥
IsKeeping clears = ⊥
IsKeeping frees = Unit {0}
IsKeeping (touches time) = Unit {0}

-- No release closes its connection, and a host is below the 256 bytes of the callers' buffers.
abbrev pub Keeping : List Event → Type 0
Keeping [] = Unit {0}
Keeping (acquires net host port timeout_ms ssrf_exempt ∷ es) = (length host ≤ 255) × Keeping es
Keeping (begins ∷ es) = Keeping es
Keeping (steps i s ∷ es) = IsKeeping s × Keeping es

count-apart_fd : (x : ℕ) (r : Option (ℕ × ConnRef)) → count_fd x (apart_fd r) ≡ count_overflow x r
count-apart_fd x none = refl
count-apart_fd x (some (fd, pooled i)) = refl
count-apart_fd x (some (fd, overflow c)) = ground arith

release_step-count :
    (x : ℕ) (s : ReleaseStep) (c : Conn)
    → IsKeeping s
    → holds_fd x (release_step s c).0 + count_fd x (release_step s c).1 ≡ holds_fd x c
unfolding release_step
release_step-count x closes c k = elim k [ ]
release_step-count x clears c k = elim k [ ]
release_step-count x frees c k = omega arith
release_step-count x (touches time) c k = omega arith

release_step_tidy :
    (s : ReleaseStep) (c : Conn)
    → IsKeeping s
    → (c.fd ≡ none → c.in_use ≡ false)
    → (release_step s c).0.fd ≡ none
    → (release_step s c).0.in_use ≡ false
unfolding release_step
release_step_tidy closes c k h e = elim k [ ]
release_step_tidy clears c k h e = elim k [ ]
release_step_tidy frees c k h e = refl
release_step_tidy (touches time) c k h e = h e

step_slot-IsSound :
    (w : World) (i : ℕ) (s : ReleaseStep) → IsKeeping s → IsSound w → IsSound (step_slot w i s)
unfolding step_slot
step_slot-IsSound w i s k v = elim (Option-cases (get_elem? w.pool.conns i)) [
  | inl missing ↦ rw (missing, step_slot) v
  | inr (c, at) ↦
      let d = (release_step s c).0 in
      let l = length-set w.pool.conns i d in
      let t = v.valid.tidy in
      rw (at, step_slot)
        (record {
          valid = record {
            some_slot = rw l v.valid.some_slot;
            limited = rw l v.valid.limited;
            tidy =
                set-IsTidy w.pool.conns i d t
                  (λ e. release_step_tidy s c k (IsTidy-get_elem? w.pool.conns i t at) e);
            bounded = v.valid.bounded;
            sound = v.valid.sound;
          };
          accounted = λ x. omega (
            arith,
            v.accounted x,
            set-count x w.pool.conns i d at,
            release_step-count x s c k,
            count_fd-append x (release_step s c).1 w.closed,
          );
        })
]

acquires-IsSound :
    (w : World) (net : Net) (host : Bytes) (port timeout_ms : ℕ) (ssrf_exempt : Bool)
    → length host ≤ 255
    → IsSound w
    → IsSound (happen w (acquires net host port timeout_ms ssrf_exempt))
unfolding happen
acquires-IsSound w net host port timeout_ms ssrf_exempt short v =
    let a = acquire net w.pool host port timeout_ms ssrf_exempt in
    let tidy = v.valid.tidy in
    record {
      valid = acquire-IsValid net w.pool host port timeout_ms ssrf_exempt short v.valid;
      accounted = λ x. omega (
        arith,
        v.accounted x,
        (acquire-Sound net w.pool host port timeout_ms ssrf_exempt short tidy).counted x,
        count_fd-append x a.opened w.opened,
        count_fd-append x a.closed w.closed,
        count_fd-append x (apart_fd a.result) w.apart,
        count-apart_fd x a.result,
      );
    }

begins-IsSound : (w : World) → IsSound w → IsSound (happen w begins)
unfolding happen
begins-IsSound w v = record {
  valid = record {
    some_slot = v.valid.some_slot;
    limited = v.valid.limited;
    tidy = v.valid.tidy;
    bounded = v.valid.bounded;
    sound = v.valid.sound;
  };
  accounted = v.accounted;
}

run-IsSound : (w : World) (es : List Event) → Keeping es → IsSound w → IsSound (run w es)
unfolding run happen
run-IsSound w [] k v = v
run-IsSound w (acquires net host port timeout_ms ssrf_exempt ∷ es) k v =
    run-IsSound (happen w (acquires net host port timeout_ms ssrf_exempt)) es k.1
      (acquires-IsSound w net host port timeout_ms ssrf_exempt k.0 v)
run-IsSound w (begins ∷ es) k v = run-IsSound (happen w begins) es k (begins-IsSound w v)
run-IsSound w (steps i s ∷ es) k v =
    run-IsSound (happen w (steps i s)) es k.1 (step_slot-IsSound w i s k.0 v)

count-empty_conns : (x : ℕ) (n : ℕ) → count_conns x (replicate n empty_conn) ≡ 0
count-empty_conns x zero = refl
count-empty_conns x (suc n) = omega (arith, count-empty_conns x n)

new_world-IsSound : (max_conns timeout_ms : ℕ) → IsSound (new_world max_conns timeout_ms)
unfolding new_pool
new_world-IsSound max_conns timeout_ms = record {
  valid = new_pool-IsValid max_conns timeout_ms;
  accounted = λ x. omega (arith, count-empty_conns x (clamp_conns max_conns));
}

-- On a new pool, as long as no release closes its connection and for hosts of at most 255 bytes: however the
-- steps of releases interleave with each other and with acquires, each taken as a whole, whatever the network
-- answers, and whichever slots the steps are on, the pool has from 1 to 256 slots, a connection in use has a
-- descriptor, the DNS cache is within its capacity, the table of breakers is well-formed, and each descriptor is
-- in a slot, was closed, or was handed out with a connection that has no slot, as often as it was opened.
pub run_events-IsSound :
    (max_conns timeout_ms : ℕ) (es : List Event)
    → Keeping es
    → IsSound (run (new_world max_conns timeout_ms) es)
run_events-IsSound max_conns timeout_ms es k =
    run-IsSound (new_world max_conns timeout_ms) es k (new_world-IsSound max_conns timeout_ms)
