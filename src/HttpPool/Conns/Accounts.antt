-- ===== src/HttpPool/Conns/Accounts.antt =====
-- Every descriptor of the slots is accounted for: how often each one occurs.
use vmod_wasm.Base.{
  ℕ, zero, suc, ◌+◌, ◌≡◌, inl, inr, List, [], ◌∷◌, ◌++◌, none, some, arith, ◌==◌, if◌then◌else◌,
  get_elem?, set,
}
use vmod_wasm.HttpPool.Conns.{Conn, Wanted, inspect, scan_reuse, closed_fd}
use vmod_wasm.HttpPool.Conns.Ownership.{inspect_drop, Verdict-cases}

abbrev pub count_fd : ℕ → List ℕ → ℕ
count_fd x [] = 0
count_fd x (fd ∷ fds) = (if fd == x then 1 else 0) + count_fd x fds

abbrev pub holds_fd : ℕ → Conn → ℕ
holds_fd x c = elim c.fd [ none ↦ 0 | some fd ↦ if fd == x then 1 else 0 ]

-- How many of the connections hold the descriptor.
abbrev pub count_conns : ℕ → List Conn → ℕ
count_conns x [] = 0
count_conns x (c ∷ cs) = holds_fd x c + count_conns x cs

pub count_fd-append :
    (x : ℕ) (xs ys : List ℕ) → count_fd x (xs ++ ys) ≡ count_fd x xs + count_fd x ys
count_fd-append x [] ys = omega arith
count_fd-append x (a ∷ xs) ys = omega (arith, count_fd-append x xs ys)

-- What the first loop drops it closes.
pub scan_reuse-count :
    (w : Wanted) (x : ℕ) (cs : List Conn)
    → count_conns x (scan_reuse w cs).conns + count_fd x (scan_reuse w cs).closed ≡ count_conns x cs
unfolding scan_reuse
scan_reuse-count w x [] = omega arith
scan_reuse-count w x (c ∷ cs) =
    let ih = scan_reuse-count w x cs in
    elim (Verdict-cases (inspect w c)) [
      | inl s ↦ rw (s, scan_reuse) (omega arith)
      | inr (inl (fd, s)) ↦
          let opened = (inspect_drop w c fd s).0 in
          let one : holds_fd x c ≡ (if fd == x then 1 else 0) = ground arith in
          rw (s, scan_reuse) (omega arith)
      | inr (inr (fd, s)) ↦ rw (s, scan_reuse) (omega arith)
    ]

-- What a write to a slot puts in and throws out.
pub set-count :
    (x : ℕ) (cs : List Conn) (i : ℕ) {c : Conn} (d : Conn)
    → get_elem? cs i ≡ some c
    → count_conns x (set cs i d) + holds_fd x c ≡ count_conns x cs + holds_fd x d
set-count x [] i d e = absurd (cc)
set-count x (y ∷ cs) zero {c} d e = let same : y ≡ c = cc in rw (← same) (omega arith)
set-count x (y ∷ cs) (suc i) {c} d e = omega (arith, set-count x cs i {c = c} d e)

pub closed_fd-count :
    (x : ℕ) (cs : List Conn) (i : ℕ) {c : Conn}
    → get_elem? cs i ≡ some c
    → count_fd x (closed_fd cs i) ≡ holds_fd x c
unfolding closed_fd
closed_fd-count x cs i {c} e = rw (e, closed_fd) (ground arith)
