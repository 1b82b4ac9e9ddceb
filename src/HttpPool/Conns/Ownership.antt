-- ===== src/HttpPool/Conns/Ownership.antt =====
-- The loops over the slots leave every connection in use alone, and every descriptor is accounted for.
use vmod_wasm.Base.{
  ℕ, zero, suc, ◌+◌, ◌≤◌, ◌<◌, ◌≡◌, ◌⊎◌, refl, sym, ap, ◌∙◌, inl, inr, true, false, ◌&&◌, List, [],
  ◌∷◌, Option, none, some, arith, leb, Bool-cases, Option-cases, get_elem?, set, bytes_eq_iff,
}
use vmod_wasm.HttpPool.Conns.{
  Conn, Wanted, Verdict, skip, drop_conn, reuse, inspect, taken, dropped, shifted, scan_reuse,
  find_free, is_idle, oldest_idle,
}

-- A connection in use has a descriptor.
abbrev pub IsTidy : List Conn → Type 0
IsTidy [] = Unit {0}
IsTidy (c ∷ cs) = (c.fd ≡ none → c.in_use ≡ false) × IsTidy cs

-- Every connection in use stands in the same slot, unchanged.
abbrev pub Keeps : List Conn → List Conn → Type 0
Keeps cs ds =
    (i : ℕ) (c : Conn) → get_elem? cs i ≡ some c → c.in_use ≡ true → get_elem? ds i ≡ some c

-- What the verdicts say of a connection.
pub inspect_drop :
    (w : Wanted) (c : Conn) (fd : ℕ)
    → inspect w c ≡ drop_conn fd
    → (c.fd ≡ some fd) × (c.in_use ≡ false)
unfolding inspect
inspect_drop w c fd h = ground arith

-- A connection is reused only by an exempt caller, where it is idle, to the wanted host and port,
-- within its age and its number of requests, and alive.
pub record Reusable (w : Wanted) (c : Conn) (fd : ℕ) : Type 0 where
  pub exempt : w.ssrf_exempt ≡ true
  pub open_fd : c.fd ≡ some fd
  pub idle : c.in_use ≡ false
  pub same_host : c.host ≡ w.host
  pub same_port : c.port ≡ w.port
  pub young : w.now ≤ c.created_at + w.max_conn_age_s
  pub spare : c.requests_served < w.max_requests_per_conn
  pub alive : w.is_alive fd ≡ true

pub inspect_reuse : (w : Wanted) (c : Conn) (fd : ℕ) → inspect w c ≡ reuse fd → Reusable w c fd
unfolding inspect
inspect_reuse w c fd h = ground (arith, bytes_eq_iff c.host w.host)

-- A case split on the verdict, with its equation.
pub Verdict-cases :
    (v : Verdict) → (v ≡ skip) ⊎ (((fd : ℕ) × (v ≡ drop_conn fd)) ⊎ ((fd : ℕ) × (v ≡ reuse fd)))
Verdict-cases skip = inl refl
Verdict-cases (drop_conn fd) = inr (inl (fd, refl))
Verdict-cases (reuse fd) = inr (inr (fd, refl))

pub scan_reuse-Keeps : (w : Wanted) (cs : List Conn) → Keeps cs (scan_reuse w cs).conns
unfolding scan_reuse
scan_reuse-Keeps w [] i c e u = e
scan_reuse-Keeps w (x ∷ cs) zero c e u = elim (Verdict-cases (inspect w x)) [
  | inl s ↦ rw (s, scan_reuse) e
  | inr (inl (fd, s)) ↦ let d = inspect_drop w x fd s in absurd (cc)
  | inr (inr (fd, s)) ↦ let d = (inspect_reuse w x fd s).idle in absurd (cc)
]
scan_reuse-Keeps w (x ∷ cs) (suc i) c e u =
    let ih = scan_reuse-Keeps w cs i c e u in
    elim (Verdict-cases (inspect w x)) [
      | inl s ↦ rw (s, scan_reuse) ih
      | inr (inl (fd, s)) ↦ rw (s, scan_reuse) ih
      | inr (inr (fd, s)) ↦ rw (s, scan_reuse) e
    ]

pub scan_reuse-IsTidy : (w : Wanted) (cs : List Conn) → IsTidy cs → IsTidy (scan_reuse w cs).conns
unfolding scan_reuse
scan_reuse-IsTidy w [] t = tt
scan_reuse-IsTidy w (x ∷ cs) t =
    let ih = scan_reuse-IsTidy w cs t.1 in
    elim (Verdict-cases (inspect w x)) [
      | inl s ↦ rw (s, scan_reuse) (t.0, ih)
      | inr (inl (fd, s)) ↦ rw (s, scan_reuse) (λ e. (inspect_drop w x fd s).1, ih)
      | inr (inr (fd, s)) ↦
          rw (s, scan_reuse) (λ e. absurd (cc (e, (inspect_reuse w x fd s).open_fd)), t.1)
    ]

-- A slot that the loop takes held a reusable connection, and is in use afterwards.
pub record Takes (w : Wanted) (cs : List Conn) (i fd : ℕ) : Type 0 where
  pub before : Conn
  pub stood : get_elem? cs i ≡ some before
  pub reusable : Reusable w before fd
  pub stands : get_elem? (scan_reuse w cs).conns i ≡ some (taken w before)

shifted_found :
    (o : Option (ℕ × ℕ)) (i fd : ℕ)
    → shifted o ≡ some (i, fd)
    → (j : ℕ) × (o ≡ some (j, fd)) × (suc j ≡ i)
shifted_found none i fd e = absurd (cc)
shifted_found (some (j, d)) i fd e = (j, cc, cc)

Takes-suc :
    (w : Wanted) (x y : Conn) (cs : List Conn) (i j fd : ℕ)
    → (scan_reuse w (x ∷ cs)).conns ≡ y ∷ (scan_reuse w cs).conns
    → suc j ≡ i
    → Takes w cs j fd
    → Takes w (x ∷ cs) i fd
Takes-suc w x y cs i j fd e s t =
    rw (← s)
      (record { before = t.before; stood = t.stood; reusable = t.reusable; stands = rw e t.stands })

pub scan_reuse_found :
    (w : Wanted) (cs : List Conn) (i fd : ℕ)
    → (scan_reuse w cs).found ≡ some (i, fd)
    → Takes w cs i fd
unfolding scan_reuse
scan_reuse_found w [] i fd e = absurd (cc)
scan_reuse_found w (x ∷ cs) i fd e = elim (Verdict-cases (inspect w x)) [
  | inl s ↦
      let (j, found, at) = shifted_found (scan_reuse w cs).found i fd (rw (s, scan_reuse) at e) in
      Takes-suc w x x cs i j fd (rw (s, scan_reuse)) at (scan_reuse_found w cs j fd found)
  | inr (inl (d, s)) ↦
      let (j, found, at) = shifted_found (scan_reuse w cs).found i fd (rw (s, scan_reuse) at e) in
      Takes-suc w x (dropped x) cs i j fd (rw (s, scan_reuse)) at (scan_reuse_found w cs j fd found)
  | inr (inr (d, s)) ↦
      let first : ◌≡◌ {A = Option (ℕ × ℕ)} (some (0, d)) (some (i, fd)) = rw (s, scan_reuse) at e in
      let same : d ≡ fd = cc in
      let zeroth : 0 ≡ i = cc in
      rw (← zeroth) (record {
        before = x;
        stood = refl;
        reusable = inspect_reuse w x fd (rw (← same) s);
        stands = rw (s, scan_reuse);
      })
]

pub find_free_sound :
    (cs : List Conn) (i : ℕ)
    → find_free cs ≡ some i
    → (c : Conn) × (get_elem? cs i ≡ some c) × (c.fd ≡ none)
unfolding find_free
find_free_sound [] i e = absurd (cc)
find_free_sound (x ∷ cs) i e = elim (Option-cases x.fd) [
  | inl closed ↦ (x, ground arith, closed)
  | inr (fd, opened) ↦ elim (Option-cases (find_free cs)) [
    | inl nothing ↦ absurd (ground arith)
    | inr (j, found) ↦ let (c, at, free) = find_free_sound cs j found in (c, ground arith, free)
  ]
]

oldest_idle_from :
    (start oldest_time : ℕ) (best : Option ℕ) (cs : List Conn) (i : ℕ)
    → oldest_idle start oldest_time best cs ≡ some i
    → (best ≡ some i)
      ⊎ ((j : ℕ) × (c : Conn) × (i ≡ start + j) × (get_elem? cs j ≡ some c) × (c.in_use ≡ false))
unfolding oldest_idle
oldest_idle_from start oldest_time best [] i e = inl e
oldest_idle_from start oldest_time best (x ∷ cs) i e =
    elim (Bool-cases (is_idle x && leb x.last_used oldest_time)) [
      | inl better ↦
          elim (oldest_idle_from (start + 1) x.last_used (some start) cs i (rw better at e)) [
            | inl here ↦ inr (0, x, ground arith, refl, ground arith)
            | inr (j, c, at, stood, idle) ↦ inr (suc j, c, omega arith, stood, idle)
          ]
      | inr worse ↦ elim (oldest_idle_from (start + 1) oldest_time best cs i (rw worse at e)) [
        | inl here ↦ inl here
        | inr (j, c, at, stood, idle) ↦ inr (suc j, c, omega arith, stood, idle)
      ]
    ]

pub oldest_idle_sound :
    (now : ℕ) (cs : List Conn) (i : ℕ)
    → oldest_idle 0 now none cs ≡ some i
    → (c : Conn) × (get_elem? cs i ≡ some c) × (c.in_use ≡ false)
oldest_idle_sound now cs i e = elim (oldest_idle_from 0 now none cs i e) [
  | inl none_some ↦ absurd (cc)
  | inr (j, c, at, stood, idle) ↦ let same : j ≡ i = omega arith in (c, rw same at stood, idle)
]

-- A write to a slot that is not in use.
pub set-Keeps :
    (cs : List Conn) (i : ℕ) (c d : Conn)
    → get_elem? cs i ≡ some c
    → c.in_use ≡ false
    → Keeps cs (set cs i d)
set-Keeps [] i c d at idle j e s u = s
set-Keeps (x ∷ cs) zero c d at idle zero e s u = absurd (cc)
set-Keeps (x ∷ cs) zero c d at idle (suc j) e s u = s
set-Keeps (x ∷ cs) (suc i) c d at idle zero e s u = s
set-Keeps (x ∷ cs) (suc i) c d at idle (suc j) e s u = set-Keeps cs i c d at idle j e s u

pub set-IsTidy :
    (cs : List Conn) (i : ℕ) (d : Conn)
    → IsTidy cs
    → (d.fd ≡ none → d.in_use ≡ false)
    → IsTidy (set cs i d)
set-IsTidy [] i d t h = tt
set-IsTidy (x ∷ cs) zero d t h = (h, t.1)
set-IsTidy (x ∷ cs) (suc i) d t h = (t.0, set-IsTidy cs i d t.1 h)

pub IsTidy-get_elem? :
    (cs : List Conn) (i : ℕ) {c : Conn}
    → IsTidy cs
    → get_elem? cs i ≡ some c
    → c.fd ≡ none
    → c.in_use ≡ false
IsTidy-get_elem? [] i t e f = absurd (cc)
IsTidy-get_elem? (x ∷ cs) zero {c} t e f =
    let same : x ≡ c = cc in
    ap (λ (y : Conn). y.in_use) (sym same) ∙ t.0 (ap (λ (y : Conn). y.fd) same ∙ f)
IsTidy-get_elem? (x ∷ cs) (suc i) t e f = IsTidy-get_elem? cs i t.1 e f

pub get_elem?-set-some :
    (cs : List Conn) (i : ℕ) {c : Conn} (d : Conn)
    → get_elem? cs i ≡ some c
    → get_elem? (set cs i d) i ≡ some d
get_elem?-set-some [] i d e = absurd (cc)
get_elem?-set-some (x ∷ cs) zero d e = refl
get_elem?-set-some (x ∷ cs) (suc i) d e = get_elem?-set-some cs i d e

-- Every slot that is idle in `ds` is idle in `cs`.
abbrev pub IdleBefore : List Conn → List Conn → Type 0
IdleBefore cs ds =
    (i : ℕ) (d : Conn)
    → get_elem? ds i ≡ some d
    → d.in_use ≡ false
    → (c : Conn) × (get_elem? cs i ≡ some c) × (c.in_use ≡ false)

pub scan_reuse-IdleBefore : (w : Wanted) (cs : List Conn) → IdleBefore cs (scan_reuse w cs).conns
unfolding scan_reuse
scan_reuse-IdleBefore w [] i d e u = absurd (cc)
scan_reuse-IdleBefore w (x ∷ cs) zero d e u = elim (Verdict-cases (inspect w x)) [
  | inl s ↦ (d, rw (s, scan_reuse) at e, u)
  | inr (inl (fd, s)) ↦ (x, refl, (inspect_drop w x fd s).1)
  | inr (inr (fd, s)) ↦ (x, refl, (inspect_reuse w x fd s).idle)
]
scan_reuse-IdleBefore w (x ∷ cs) (suc i) d e u = elim (Verdict-cases (inspect w x)) [
  | inl s ↦ scan_reuse-IdleBefore w cs i d (rw (s, scan_reuse) at e) u
  | inr (inl (fd, s)) ↦ scan_reuse-IdleBefore w cs i d (rw (s, scan_reuse) at e) u
  | inr (inr (fd, s)) ↦ (d, rw (s, scan_reuse) at e, u)
]
