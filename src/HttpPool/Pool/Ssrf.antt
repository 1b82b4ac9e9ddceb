-- ===== src/HttpPool/Pool/Ssrf.antt =====
-- A caller without an exemption reaches public addresses only.
use vmod_wasm.Base.{
  ℕ, ◌≡◌, refl, ap, ◌∙◌, inl, inr, false, List, Option, none, some, arith, ◌==◌, if◌then◌else◌,
  Bool-cases, Option-cases, Bytes,
}
use vmod_wasm.HttpPool.Addr.{Sockaddr, addr_is_private}
use vmod_wasm.HttpPool.Breaker.{cb_allow}
use vmod_wasm.HttpPool.Conns.{scan_reuse}
use vmod_wasm.HttpPool.Conns.Ownership.{scan_reuse_found}
use vmod_wasm.HttpPool.Dns.{resolve}
use vmod_wasm.HttpPool.Pool.{Pool, Net, ConnRef, place, dial, create, wanted, obtain, acquire}

place_fd :
    (net : Net) (host : Bytes) (port : ℕ) (p : Pool) (closed : List ℕ) (made : ℕ) {fd : ℕ}
    {r : ConnRef}
    → (place net host port p closed made).result ≡ some (fd, r)
    → made ≡ fd
unfolding place
place_fd net host port p closed made e = ground arith

-- The descriptor was made by a connection to a public address that the host resolved to.
pub record Public (net : Net) (p : Pool) (host : Bytes) (port fd : ℕ) : Type 0 where
  pub addr : Sockaddr
  pub timeout_ms : ℕ
  pub resolved : (resolve net.getaddrinfo net.resolve_time p.dns host port).1 ≡ some addr
  pub public : addr_is_private addr ≡ false
  pub connected : net.connect addr timeout_ms ≡ some fd

dial-Public :
    (net : Net) (host : Bytes) (port timeout_ms : ℕ) (p : Pool) (closed : List ℕ)
    (found : Option Sockaddr) {fd : ℕ} {r : ConnRef}
    → (dial net host port timeout_ms false p closed found).result ≡ some (fd, r)
    → (addr : Sockaddr) × (found ≡ some addr)
      × (addr_is_private addr ≡ false)
      × (net.connect addr timeout_ms ≡ some fd)
unfolding dial
dial-Public net host port timeout_ms p closed none e = absurd (cc)
dial-Public net host port timeout_ms p closed (some addr) {fd} {r} e =
    elim (Bool-cases (addr_is_private addr)) [
      | inl private ↦
          let n : ◌≡◌ {A = Option (ℕ × ConnRef)} none (some (fd, r)) = rw private at e in
          absurd (cc)
      | inr public ↦ elim (Option-cases (net.connect addr timeout_ms)) [
        | inl failed ↦
            let n : ◌≡◌ {A = Option (ℕ × ConnRef)} none (some (fd, r)) =
              rw failed at (rw (public, dial) at e) in
            absurd (cc)
        | inr (made, opened) ↦
            let same =
              place_fd net host port p closed made (rw opened at (rw (public, dial) at e)) in
            (addr, refl, public, opened ∙ ap some same)
      ]
    ]

obtain-Public :
    (net : Net) (host : Bytes) (port timeout_ms : ℕ) (p : Pool) {fd : ℕ} {r : ConnRef}
    → (obtain net host port timeout_ms false p).result ≡ some (fd, r)
    → Public net p host port fd
unfolding obtain create
obtain-Public net host port timeout_ms p {fd} {r} e =
    let w = wanted net host port false p in
    elim (Option-cases (scan_reuse w p.conns).found) [
      | inr ((i, old), found) ↦
          let k = (scan_reuse_found w p.conns i old found).reusable.exempt in absurd (cc)
      | inl nothing ↦
          let (addr, resolved, public, connected) =
            dial-Public net host port timeout_ms _ _ _ (rw (nothing, obtain) at e) in
          record {
            addr = addr;
            timeout_ms = timeout_ms;
            resolved = resolved;
            public = public;
            connected = connected;
          }
    ]

-- Without an exemption, a descriptor that `acquire` hands out is that of a connection made in this very
-- call, to the address that the host resolved to, and that address is not private.
pub acquire-Public :
    (net : Net) (p : Pool) (host : Bytes) (port timeout_ms : ℕ) {fd : ℕ} {r : ConnRef}
    → (acquire net p host port timeout_ms false).result ≡ some (fd, r)
    → Public net p host port fd
unfolding acquire
acquire-Public net p host port timeout_ms {fd} {r} e =
    let asked = cb_allow net.allow_time p.breakers host port in
    elim (Bool-cases asked.1) [
      | inl allowed ↦
          let o =
            obtain-Public net host port
              (if timeout_ms == 0 then p.default_timeout_ms else timeout_ms)
              (record p { breakers = asked.0 }) (rw allowed at e) in
          record {
            addr = o.addr;
            timeout_ms = o.timeout_ms;
            resolved = o.resolved;
            public = o.public;
            connected = o.connected;
          }
      | inr rejected ↦
          let n : ◌≡◌ {A = Option (ℕ × ConnRef)} none (some (fd, r)) = rw rejected at e in
          absurd (cc)
    ]
