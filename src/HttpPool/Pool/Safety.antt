-- ===== src/HttpPool/Pool/Safety.antt =====
-- What `acquire` promises: it never touches a connection in use, hands out one that was not, makes
-- new ones to public addresses only unless the caller is exempt, and loses no descriptor.
use vmod_wasm.Base.{
  ℕ, ◌+◌, ◌≤◌, ◌≡◌, refl, inl, inr, Bool, true, false, not, ◌&&◌, List, [], Option, none, some,
  arith, ◌==◌, if◌then◌else◌, Bool-cases, Option-cases, length, get_elem?, take_all, Bytes,
}
use vmod_wasm.HttpPool.Addr.{Sockaddr, addr_is_private}
use vmod_wasm.HttpPool.Breaker.{cb_allow}
use vmod_wasm.HttpPool.Conns.{Conn, scan_reuse, find_free, oldest_idle, fresh_conn, closed_fd}
use vmod_wasm.HttpPool.Conns.Accounts.{
  count_fd, holds_fd, count_conns, count_fd-append, scan_reuse-count, set-count, closed_fd-count,
}
use vmod_wasm.HttpPool.Conns.Ownership.{
  IsTidy, Keeps, scan_reuse-Keeps, scan_reuse-IsTidy, scan_reuse_found, find_free_sound,
  oldest_idle_sound, set-Keeps, set-IsTidy, IsTidy-get_elem?, get_elem?-set-some, IdleBefore,
  scan_reuse-IdleBefore,
}
use vmod_wasm.HttpPool.Dns.{resolve}
use vmod_wasm.HttpPool.Pool.{
  Pool, Net, ConnRef, pooled, overflow, Acquired, refused, place_overflow, place_evict, place, dial,
  create, wanted, obtain, acquire,
}

-- The descriptors of a connection outside the slots.
abbrev pub count_overflow : ℕ → Option (ℕ × ConnRef) → ℕ
count_overflow x none = 0
count_overflow x (some (fd, pooled i)) = 0
count_overflow x (some (fd, overflow c)) = holds_fd x c

-- The connection handed out stands in a slot that was not in use, holds the descriptor handed out,
-- is in use now and leads to the host and port asked for; or it stands by itself.
abbrev pub Grants : Bytes → ℕ → List Conn → List Conn → Option (ℕ × ConnRef) → Type 0
Grants host port cs ds none = Unit {0}
Grants host port cs ds (some (fd, pooled i)) =
    (b : Conn) × (c : Conn) × (get_elem? cs i ≡ some b)
    × (b.in_use ≡ false)
    × (get_elem? ds i ≡ some c)
    × (c.fd ≡ some fd)
    × (c.in_use ≡ true)
    × (c.host ≡ host)
    × (c.port ≡ port)
Grants host port cs ds (some (fd, overflow c)) =
    (c.fd ≡ some fd) × (c.in_use ≡ true) × (c.host ≡ host) × (c.port ≡ port)

Grants-IdleBefore :
    (host : Bytes) (port : ℕ) (bs cs ds : List Conn)
    → IdleBefore bs cs
    → (r : Option (ℕ × ConnRef)) → Grants host port cs ds r
    → Grants host port bs ds r
Grants-IdleBefore host port bs cs ds idle none g = tt
Grants-IdleBefore host port bs cs ds idle (some (fd, pooled i))
      (b, c, at, free, here, has, used, h, q) =
    let (a, at', free') = idle i b at free in (a, c, at', free', here, has, used, h, q)
Grants-IdleBefore host port bs cs ds idle (some (fd, overflow c)) g = g

-- What holds of the answer of a part of `acquire` that starts from the slots `cs` with the
-- descriptors `closed` closed already.
pub record Sound (host : Bytes) (port : ℕ) (cs : List Conn) (closed : List ℕ) (a : Acquired)
    : Type 0 where
  pub keeps : Keeps cs a.pool.conns
  pub tidy : IsTidy a.pool.conns
  pub grants : Grants host port cs a.pool.conns a.result
  pub counted :
      (x : ℕ)
      → count_conns x a.pool.conns + count_fd x a.closed + count_overflow x a.result
        ≡ count_conns x cs + count_fd x closed + count_fd x a.opened

module _ (net : Net) (host : Bytes) (port : ℕ) (short : length host ≤ 255) where
  place_overflow-Sound :
      (p : Pool) (closed : List ℕ) (fd : ℕ)
      → IsTidy p.conns
      → Sound host port p.conns closed (place_overflow net host port p closed fd)
  unfolding place_overflow
  place_overflow-Sound p closed fd t = elim (Bool-cases net.calloc_ok) [
    | inl fits ↦ rw fits (record {
      keeps = λ i c e u. e;
      tidy = t;
      grants = (refl, refl, take_all 255 host short, refl);
      counted = λ x. omega arith;
    })
    | inr full ↦
        rw full (record { keeps = λ i c e u. e; tidy = t; grants = tt; counted = λ x. omega arith })
  ]

  place_evict-Sound :
      (p : Pool) (closed : List ℕ) (fd : ℕ)
      → IsTidy p.conns
      → Sound host port p.conns closed (place_evict net host port p closed fd)
  unfolding place_evict
  place_evict-Sound p closed fd t = elim (Option-cases (oldest_idle 0 net.now none p.conns)) [
    | inl all_busy ↦ rw (all_busy, place_evict) (place_overflow-Sound p closed fd t)
    | inr (i, old) ↦
        let (c, at, idle) = oldest_idle_sound net.now p.conns i old in
        let d = fresh_conn fd host port net.now true in
        rw (old, place_evict)
          (record {
            keeps = set-Keeps p.conns i c d at idle;
            tidy = set-IsTidy p.conns i d t (λ e. absurd (cc));
            grants = (
              c,
              d,
              at,
              idle,
              get_elem?-set-some p.conns i d at,
              refl,
              refl,
              take_all 255 host short,
              refl,
            );
            counted = λ x. omega (
              arith,
              set-count x p.conns i d at,
              closed_fd-count x p.conns i at,
              count_fd-append x (closed_fd p.conns i) closed,
            );
          })
  ]

  place-Sound :
      (p : Pool) (closed : List ℕ) (fd : ℕ)
      → IsTidy p.conns
      → Sound host port p.conns closed (place net host port p closed fd)
  unfolding place
  place-Sound p closed fd t = elim (Option-cases (find_free p.conns)) [
    | inl no_slot ↦ rw (no_slot, place) (place_evict-Sound p closed fd t)
    | inr (i, free) ↦
        let (c, at, no_fd) = find_free_sound p.conns i free in
        let idle = IsTidy-get_elem? p.conns i t at no_fd in
        let d = fresh_conn fd host port net.now true in
        rw (free, place)
          (record {
            keeps = set-Keeps p.conns i c d at idle;
            tidy = set-IsTidy p.conns i d t (λ e. absurd (cc));
            grants = (
              c,
              d,
              at,
              idle,
              get_elem?-set-some p.conns i d at,
              refl,
              refl,
              take_all 255 host short,
              refl,
            );
            counted = λ x.
                let h : holds_fd x c ≡ 0 = ground arith in
                omega (arith, set-count x p.conns i d at, h);
          })
  ]

  refused-Sound :
      (p : Pool) (closed : List ℕ)
      → IsTidy p.conns
      → Sound host port p.conns closed (refused p closed)
  refused-Sound p closed t = record {
    keeps = λ i c e u. e;
    tidy = t;
    grants = tt;
    counted = λ x. omega arith;
  }

  dial-Sound :
      (timeout_ms : ℕ) (ssrf_exempt : Bool) (p : Pool) (closed : List ℕ) (addr : Option Sockaddr)
      → IsTidy p.conns
      → Sound host port p.conns closed (dial net host port timeout_ms ssrf_exempt p closed addr)
  unfolding dial
  dial-Sound timeout_ms ssrf_exempt p closed none t = refused-Sound p closed t
  dial-Sound timeout_ms ssrf_exempt p closed (some addr) t =
      elim (Bool-cases (not ssrf_exempt && addr_is_private addr)) [
        | inl private ↦ rw private (refused-Sound p closed t)
        | inr public ↦ elim (Option-cases (net.connect addr timeout_ms)) [
          | inl failed ↦ rw (public, dial) (rw failed (refused-Sound p closed t))
          | inr (fd, made) ↦ rw (public, dial) (rw made (place-Sound p closed fd t))
        ]
      ]

  obtain-Sound :
      (timeout_ms : ℕ) (ssrf_exempt : Bool) (p : Pool)
      → IsTidy p.conns
      → Sound host port p.conns [] (obtain net host port timeout_ms ssrf_exempt p)
  unfolding obtain create
  obtain-Sound timeout_ms ssrf_exempt p t =
      let w = wanted net host port ssrf_exempt p in
      let keeps = scan_reuse-Keeps w p.conns in
      let tidy = scan_reuse-IsTidy w p.conns t in
      elim (Option-cases (scan_reuse w p.conns).found) [
        | inr ((i, fd), found) ↦
            let k = scan_reuse_found w p.conns i fd found in
            rw (found, obtain)
              (record {
                keeps = keeps;
                tidy = tidy;
                grants = (
                  k.before, _, k.stood, k.reusable.idle, k.stands, k.reusable.open_fd, refl,
                  k.reusable.same_host, k.reusable.same_port,
                );
                counted = λ x. omega (arith, scan_reuse-count w x p.conns);
              })
        | inl nothing ↦
            let looked = resolve net.getaddrinfo net.resolve_time p.dns host port in
            let d =
              dial-Sound timeout_ms ssrf_exempt
                (record p { conns = (scan_reuse w p.conns).conns; dns = looked.0 })
                (scan_reuse w p.conns).closed looked.1 tidy in
            rw (nothing, obtain)
              (record {
                keeps = λ i c e u. d.keeps i c (keeps i c e u) u;
                tidy = d.tidy;
                grants =
                    Grants-IdleBefore host port _ _ _ (scan_reuse-IdleBefore w p.conns) _ d.grants;
                counted = λ x. omega (arith, d.counted x, scan_reuse-count w x p.conns);
              })
      ]

-- Whatever the network and the clock do, for a host of at most 255 bytes and a pool in which every
-- connection in use has a descriptor, and where no other thread runs in between: `acquire` leaves every
-- connection in use in its slot, unchanged; what it hands out is marked in use, leads to the host
-- and port asked for, holds the descriptor returned, and stood in a slot that was not in use or
-- stands by itself; and each descriptor that was in a slot or was opened is afterwards in a slot,
-- handed out or closed, as often as before.
pub acquire-Sound :
    (net : Net) (p : Pool) (host : Bytes) (port timeout_ms : ℕ) (ssrf_exempt : Bool)
    → length host ≤ 255
    → IsTidy p.conns
    → Sound host port p.conns [] (acquire net p host port timeout_ms ssrf_exempt)
unfolding acquire
acquire-Sound net p host port timeout_ms ssrf_exempt short t =
    let asked = cb_allow net.allow_time p.breakers host port in
    elim (Bool-cases asked.1) [
      | inl allowed ↦
          let o =
            obtain-Sound net host port short
              (if timeout_ms == 0 then p.default_timeout_ms else timeout_ms) ssrf_exempt
              (record p { breakers = asked.0 }) t in
          rw allowed o
      | inr rejected ↦
          rw rejected (refused-Sound net host port short (record p { breakers = asked.0 }) [] t)
    ]
