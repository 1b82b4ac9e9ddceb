-- ===== src/Http/Dialing.antt =====
-- pw_http_connect of src/proxy_wasm_http.c, the connection of a callout where the engine has no pool.
use mathlib.Core.List.{Mem, mem-cons_self, mem-cons_of_mem}
use mathlib.Core.Option.{some-injective}
use vmod_wasm.Base.{
  ℕ, ◌≡◌, refl, ap, ◌∙◌, Bool, true, false, not, ◌&&◌, List, [], ◌∷◌, Option, none, some,
  if◌then◌else◌, Bytes, Bool-cases, inl, inr, ◌⊎◌,
}
use vmod_wasm.HttpPool.Addr.{Sockaddr, addr_is_private}

-- What an attempt at an address comes to: no socket, a socket that does not connect in time, or one that
-- is connected.
pub data Attempt : Type 0 where
  no_socket : Attempt
  unconnected opened : ℕ → Attempt

-- A descriptor that is connected, and those that have been closed.
abbrev pub tried : Attempt → Option ℕ × List ℕ → Option ℕ × List ℕ
tried no_socket later = later
tried (unconnected fd) (found, closed) = (found, fd ∷ closed)
tried (opened fd) later = (some fd, [])

-- `attempt` is socket, connect and poll, with the timeout.
module _ (attempt : Sockaddr → ℕ → Attempt) where
  unfoldable pub connect_loop : Bool → ℕ → List Sockaddr → Option ℕ × List ℕ
  connect_loop ssrf_exempt timeout_ms [] = (none, [])
  connect_loop ssrf_exempt timeout_ms (addr ∷ rest) =
      let later = connect_loop ssrf_exempt timeout_ms rest in
      if not ssrf_exempt && addr_is_private addr
      then later
      else tried (attempt addr timeout_ms) later

  -- `getaddrinfo` gives the addresses of a host, none where it fails.
  unfoldable pub http_connect :
      (Bytes → ℕ → Option (List Sockaddr)) → Bytes → ℕ → ℕ → Bool → Option ℕ × List ℕ
  http_connect getaddrinfo host port timeout_ms ssrf_exempt = elim (getaddrinfo host port) [
    | none ↦ (none, [])
    | some addrs ↦ connect_loop ssrf_exempt timeout_ms addrs
  ]

  -- An address of a list that a connection may go to, and that it is connected to.
  abbrev pub Reached : Bool → ℕ → List Sockaddr → ℕ → Type 0
  Reached ssrf_exempt timeout_ms addrs fd =
      (addr : Sockaddr) × Mem addr addrs
      × (attempt addr timeout_ms ≡ opened fd)
      × ((ssrf_exempt ≡ true) ⊎ (addr_is_private addr ≡ false))

  Reached-later :
      (ssrf_exempt : Bool) (timeout_ms : ℕ) (addr : Sockaddr) (rest : List Sockaddr) {fd : ℕ}
      → Reached ssrf_exempt timeout_ms rest fd
      → Reached ssrf_exempt timeout_ms (addr ∷ rest) fd
  Reached-later ssrf_exempt timeout_ms addr rest (a, m, e, p) = (a, mem-cons_of_mem addr m, e, p)

  allowed :
      (ssrf_exempt p : Bool) → (not ssrf_exempt && p) ≡ false → (ssrf_exempt ≡ true) ⊎ (p ≡ false)
  allowed true p h = inl refl
  allowed false p h = inr h

  tried-Reached :
      (ssrf_exempt : Bool) (timeout_ms : ℕ) (addr : Sockaddr) (rest : List Sockaddr) {fd : ℕ}
      (o : Attempt) (later : Option ℕ × List ℕ)
      → attempt addr timeout_ms ≡ o
      → (not ssrf_exempt && addr_is_private addr) ≡ false
      → (later.0 ≡ some fd → Reached ssrf_exempt timeout_ms rest fd)
      → (tried o later).0 ≡ some fd
      → Reached ssrf_exempt timeout_ms (addr ∷ rest) fd
  tried-Reached x t addr rest no_socket later e p g h = Reached-later x t addr rest (g h)
  tried-Reached x t addr rest (unconnected k) later e p g h = Reached-later x t addr rest (g h)
  tried-Reached x t addr rest (opened k) later e p g h = (
    addr,
    mem-cons_self,
    e ∙ ap opened (some-injective _ _ h),
    allowed x (addr_is_private addr) p,
  )

  connect_loop-Reached :
      (ssrf_exempt : Bool) (timeout_ms : ℕ) (addrs : List Sockaddr) {fd : ℕ}
      → (connect_loop ssrf_exempt timeout_ms addrs).0 ≡ some fd
      → Reached ssrf_exempt timeout_ms addrs fd
  unfolding connect_loop
  connect_loop-Reached x t [] h = cc h
  connect_loop-Reached x t (addr ∷ rest) h = elim (Bool-cases (not x && addr_is_private addr)) [
    | inl z ↦ Reached-later x t addr rest (connect_loop-Reached x t rest (rw z at h))
    | inr z ↦
        tried-Reached x t addr rest (attempt addr t) (connect_loop x t rest) refl z
          (λ e. connect_loop-Reached x t rest e) (rw z at h)
  ]

  -- A direct connection is one to an address of the host, and to none in a private block unless the
  -- upstream is on the allowlist.
  pub http_connect-Reached :
      (getaddrinfo : Bytes → ℕ → Option (List Sockaddr)) (host : Bytes) (port timeout_ms : ℕ)
      (ssrf_exempt : Bool) (addrs : List Sockaddr) {fd : ℕ}
      → getaddrinfo host port ≡ some addrs
      → (http_connect getaddrinfo host port timeout_ms ssrf_exempt).0 ≡ some fd
      → Reached ssrf_exempt timeout_ms addrs fd
  unfolding http_connect
  http_connect-Reached getaddrinfo host port t x addrs e h =
      connect_loop-Reached x t addrs (rw (e, http_connect) at h)
