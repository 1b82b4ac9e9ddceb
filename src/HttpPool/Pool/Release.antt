-- ===== src/HttpPool/Pool/Release.antt =====
-- What `release` does to the slots.
use vmod_wasm.Base.{
  ℕ, ◌+◌, ◌≡◌, ◌≢◌, refl, inl, inr, Option-cases, [], ◌∷◌, Bool, false, ◌&&◌, List, none, some,
  arith, if◌then◌else◌, get_elem?, get_elem?-set_ne,
}
use vmod_wasm.HttpPool.Conns.{Conn}
use vmod_wasm.HttpPool.Conns.Accounts.{count_fd, holds_fd, count_conns, set-count}
use vmod_wasm.HttpPool.Conns.Ownership.{IsTidy, set-IsTidy, get_elem?-set-some}
use vmod_wasm.HttpPool.Pool.{Pool, pooled, release_conn, release, close_all, destroy}

-- A slot after the release of its connection `c`.
pub record Freed (c d : Conn) (keep_alive : Bool) : Type 0 where
  pub idle : d.in_use ≡ false
  pub same_host : d.host ≡ c.host
  pub same_port : d.port ≡ c.port
  pub kept : d.fd ≡ (if keep_alive && c.keep_alive then c.fd else none)

release_conn-Freed :
    (time : ℕ) (c : Conn) (keep_alive : Bool)
    → Freed c (release_conn time c keep_alive).0 keep_alive
unfolding release_conn
release_conn-Freed time c keep_alive = ground arith

release_conn-count :
    (time x : ℕ) (c : Conn) (keep_alive : Bool)
    → holds_fd x (release_conn time c keep_alive).0 + count_fd x (release_conn time c keep_alive).1
      ≡ holds_fd x c
unfolding release_conn
release_conn-count time x c keep_alive = ground arith

pub record Released (i : ℕ) (c : Conn) (keep_alive : Bool) (p : Pool) (r : Pool × List ℕ)
    : Type 0 where
  pub freed : (d : Conn) × (get_elem? r.0.conns i ≡ some d) × Freed c d keep_alive
  pub others : (j : ℕ) → i ≢ j → get_elem? r.0.conns j ≡ get_elem? p.conns j
  pub tidy : IsTidy r.0.conns
  pub counted : (x : ℕ) → count_conns x r.0.conns + count_fd x r.1 ≡ count_conns x p.conns

-- The release of the connection in slot `i` leaves that slot idle, with its descriptor if both the
-- caller and the connection are for keeping it and with none otherwise, leaves every other slot as it
-- was, and closes exactly the descriptors that leave the slots.
pub release-Released :
    (time : ℕ) (p : Pool) (i : ℕ) (c : Conn) (keep_alive : Bool)
    → IsTidy p.conns
    → get_elem? p.conns i ≡ some c
    → Released i c keep_alive p (release time p (pooled i) keep_alive)
unfolding release
release-Released time p i c keep_alive t at =
    let d = (release_conn time c keep_alive).0 in
    let f = release_conn-Freed time c keep_alive in
    rw (at, release)
      (record {
        freed = (d, get_elem?-set-some p.conns i d at, f);
        others = λ j ne. get_elem?-set_ne p.conns d ne;
        tidy = set-IsTidy p.conns i d t (λ e. f.idle);
        counted =
            λ x. omega (arith, set-count x p.conns i d at, release_conn-count time x c keep_alive);
      })

close_all-count : (x : ℕ) (cs : List Conn) → count_fd x (close_all cs) ≡ count_conns x cs
unfolding close_all
close_all-count x [] = refl
close_all-count x (c ∷ cs) =
    let ih = close_all-count x cs in
    elim (Option-cases c.fd) [
      | inl no_fd ↦ rw (no_fd, close_all) (omega arith)
      | inr (fd, held) ↦ rw (held, close_all) (omega arith)
    ]

-- A connection that is released and a pool that is then destroyed close, between them, each descriptor
-- of the slots, as often as the slots hold it.
pub release-destroy :
    (time : ℕ) (p : Pool) (i : ℕ) (c : Conn) (keep_alive : Bool) (x : ℕ)
    → IsTidy p.conns
    → get_elem? p.conns i ≡ some c
    → count_fd x (release time p (pooled i) keep_alive).1
        + count_fd x (destroy (release time p (pooled i) keep_alive).0)
      ≡ count_conns x p.conns
unfolding destroy
release-destroy time p i c keep_alive x t at =
    let r = (release-Released time p i c keep_alive t at).counted x in
    let d = close_all-count x (release time p (pooled i) keep_alive).0.conns in omega arith
