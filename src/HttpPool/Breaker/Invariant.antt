-- ===== src/HttpPool/Breaker/Invariant.antt =====
-- Well-formed tables of breakers, and that every call on them keeps them well-formed.
use vmod_wasm.Base.{
  ℕ, zero, suc, ◌≤◌, ◌<◌, ◌≡◌, ◌≢◌, refl, sym, ap, ◌∙◌, inl, inr, List, [], ◌∷◌, ◌++◌, map, Option,
  none, some, arith, Bool-cases, Option-cases, leb, bytes_eq, bytes_eq_iff, length, length-append,
  length-set, get_elem?, set, Bytes,
}
use vmod_wasm.HttpPool.Breaker.{
  cb_closed, Breaker, Breakers, cb_threshold_default, cb_halfopen_timeout_s, upstream_key,
  new_breaker, find_breaker, create_breaker, cb_find_or_create, allow_breaker, success_breaker,
  failure_breaker, modify_breaker, modify_at, allow_at, cb_allow, cb_success, cb_failure,
}
use vmod_wasm.HttpPool.Breaker.Table.{
  lookup_breaker, find_breaker-none, upstream-success, upstream-failure, upstream-allow,
}

-- A closed breaker has not reached its threshold; the configuration is never changed.
pub record IsSound (b : Breaker) : Type 0 where
  pub threshold_set : b.threshold ≡ cb_threshold_default
  pub timeout_set : b.half_open_timeout_s ≡ cb_halfopen_timeout_s
  pub closed_below : b.state ≡ cb_closed → b.consecutive_failures < b.threshold

pub new_breaker-IsSound : (key : Bytes) → IsSound (new_breaker key)
new_breaker-IsSound key = record {
  threshold_set = refl;
  timeout_set = refl;
  closed_below = λ _. omega arith;
}

pub allow_breaker-IsSound : (now : ℕ) (b : Breaker) → IsSound b → IsSound (allow_breaker now b).0
unfolding allow_breaker
allow_breaker-IsSound now b s = ground arith

pub success_breaker-IsSound : (now : ℕ) (b : Breaker) → IsSound b → IsSound (success_breaker now b)
unfolding success_breaker
success_breaker-IsSound now b s = ground arith

pub failure_breaker-IsSound : (now : ℕ) (b : Breaker) → IsSound b → IsSound (failure_breaker now b)
unfolding failure_breaker
failure_breaker-IsSound now b s = ground arith

abbrev pub AllSound : List Breaker → Type 0
AllSound [] = Unit {0}
AllSound (b ∷ bs) = IsSound b × AllSound bs

abbrev pub keys : List Breaker → List Bytes
keys = map λ b. b.upstream

abbrev pub Absent : Bytes → List Bytes → Type 0
Absent k [] = Unit {0}
Absent k (x ∷ xs) = (x ≢ k) × Absent k xs

abbrev pub Distinct : List Bytes → Type 0
Distinct [] = Unit {0}
Distinct (x ∷ xs) = Absent x xs × Distinct xs

-- At most `max_breakers` entries, one for each key, all of them sound.
pub record IsValid (t : Breakers) : Type 0 where
  pub bounded : length t.breakers ≤ t.max_breakers
  pub distinct : Distinct (keys t.breakers)
  pub sound : AllSound t.breakers

AllSound-set :
    (bs : List Breaker) (i : ℕ) (c : Breaker) → AllSound bs → IsSound c → AllSound (set bs i c)
AllSound-set [] i c s h = tt
AllSound-set (b ∷ bs) zero c s h = (h, s.1)
AllSound-set (b ∷ bs) (suc i) c s h = (s.0, AllSound-set bs i c s.1 h)

AllSound-concat :
    (bs : List Breaker) (c : Breaker) → AllSound bs → IsSound c → AllSound (bs ++ c ∷ [])
AllSound-concat [] c s h = (h, tt)
AllSound-concat (b ∷ bs) c s h = (s.0, AllSound-concat bs c s.1 h)

AllSound-get_elem? :
    (bs : List Breaker) (i : ℕ) {b : Breaker} → AllSound bs → get_elem? bs i ≡ some b → IsSound b
AllSound-get_elem? [] i s e = absurd (cc)
AllSound-get_elem? (x ∷ bs) zero {b} s e = let p : x ≡ b = cc in rw (← p) s.0
AllSound-get_elem? (x ∷ bs) (suc i) s e = AllSound-get_elem? bs i s.1 e

keys-set :
    (bs : List Breaker) (i : ℕ) (b c : Breaker)
    → get_elem? bs i ≡ some b
    → c.upstream ≡ b.upstream
    → keys (set bs i c) ≡ keys bs
keys-set [] i b c e u = refl
keys-set (x ∷ bs) zero b c e u =
    let p : x ≡ b = cc in ap (λ k. k ∷ keys bs) (u ∙ ap (λ y. y.upstream) (sym p))
keys-set (x ∷ bs) (suc i) b c e u = ap (◌∷◌ x.upstream) (keys-set bs i b c e u)

keys-concat : (bs : List Breaker) (c : Breaker) → keys (bs ++ c ∷ []) ≡ keys bs ++ c.upstream ∷ []
keys-concat [] c = refl
keys-concat (b ∷ bs) c = ap (◌∷◌ b.upstream) (keys-concat bs c)

Absent-concat : (k x : Bytes) (xs : List Bytes) → Absent k xs → x ≢ k → Absent k (xs ++ x ∷ [])
Absent-concat k x [] a h = (h, tt)
Absent-concat k x (y ∷ xs) a h = (a.0, Absent-concat k x xs a.1 h)

Distinct-concat :
    (k : Bytes) (xs : List Bytes) → Distinct xs → Absent k xs → Distinct (xs ++ k ∷ [])
Distinct-concat k [] d a = (tt, tt)
Distinct-concat k (x ∷ xs) d a =
    (Absent-concat x k xs d.0 (λ e. a.0 (sym e)), Distinct-concat k xs d.1 a.1)

lookup_breaker-Absent :
    (k : Bytes) (bs : List Breaker) → lookup_breaker k bs ≡ none → Absent k (keys bs)
unfolding lookup_breaker
lookup_breaker-Absent k [] e = tt
lookup_breaker-Absent k (b ∷ bs) e = elim (Bool-cases (bytes_eq b.upstream k)) [
  | inl hit ↦ absurd (ground arith)
  | inr miss ↦
      (λ same. cc ((bytes_eq_iff b.upstream k).1 same), lookup_breaker-Absent k bs (ground arith))
]

-- A write to one entry that keeps its key and its soundness.
set-IsValid :
    (t : Breakers) (i : ℕ) (b c : Breaker)
    → IsValid t
    → get_elem? t.breakers i ≡ some b
    → c.upstream ≡ b.upstream
    → (IsSound b → IsSound c)
    → IsValid (record t { breakers = set t.breakers i c })
set-IsValid t i b c v e u keeps = record {
  bounded = omega (arith, length-set {0} t.breakers i c, v.bounded);
  distinct = rw (keys-set t.breakers i b c e u) v.distinct;
  sound = AllSound-set t.breakers i c v.sound (keeps (AllSound-get_elem? t.breakers i v.sound e));
}

create_breaker-IsValid :
    (t : Breakers) (key : Bytes)
    → IsValid t
    → lookup_breaker key t.breakers ≡ none
    → IsValid (create_breaker t key).0
unfolding create_breaker
create_breaker-IsValid t key v missing =
    elim (Bool-cases (leb t.max_breakers (length t.breakers))) [
      | inl full ↦ rw full v
      | inr room ↦ rw room (record {
        bounded =
            let l = length-append t.breakers (new_breaker key ∷ []) in
            let r : length t.breakers < t.max_breakers = ground arith in omega arith;
        distinct = rw (keys-concat t.breakers (new_breaker key)) (
            Distinct-concat key (keys t.breakers) v.distinct
              (lookup_breaker-Absent key t.breakers missing));
        sound = AllSound-concat t.breakers (new_breaker key) v.sound (new_breaker-IsSound key);
      })
    ]

cb_find_or_create-IsValid :
    (t : Breakers) (host : Bytes) (port : ℕ) → IsValid t → IsValid (cb_find_or_create t host port).0
unfolding cb_find_or_create
cb_find_or_create-IsValid t host port v =
    let key = upstream_key host port in
    elim (Option-cases (find_breaker key t.breakers)) [
      | inl missing ↦
          rw (missing, cb_find_or_create)
            (create_breaker-IsValid t key v (find_breaker-none key t.breakers missing))
      | inr (i, hit) ↦ rw (hit, cb_find_or_create) v
    ]

modify_at-IsValid :
    (f : Breaker → Breaker) (t : Breakers) (found : Option ℕ)
    → ((b : Breaker) → (f b).upstream ≡ b.upstream)
    → ((b : Breaker) → IsSound b → IsSound (f b))
    → IsValid t
    → IsValid (modify_at f (t, found))
unfolding modify_at modify_breaker
modify_at-IsValid f t none keeps sound v = v
modify_at-IsValid f t (some i) keeps sound v = elim (Option-cases (get_elem? t.breakers i)) [
  | inl outside ↦ rw (outside, modify_at, modify_breaker) v
  | inr (b, at) ↦
      rw (at, modify_at, modify_breaker) (set-IsValid t i b (f b) v at (keeps b) (sound b))
]

allow_at-IsValid :
    (now : ℕ) (t : Breakers) (found : Option ℕ) → IsValid t → IsValid (allow_at now t found).0
unfolding allow_at
allow_at-IsValid now t none v = v
allow_at-IsValid now t (some i) v = elim (Option-cases (get_elem? t.breakers i)) [
  | inl outside ↦ rw (outside, allow_at) v
  | inr (b, at) ↦
      let w =
        set-IsValid t i b (allow_breaker now b).0 v at (upstream-allow now b)
          (allow_breaker-IsSound now b) in
      rw (at, allow_at) (record { bounded = w.bounded; distinct = w.distinct; sound = w.sound })
]

pub cb_allow-IsValid :
    (now : ℕ) (t : Breakers) (host : Bytes) (port : ℕ)
    → IsValid t
    → IsValid (cb_allow now t host port).0
unfolding cb_allow
cb_allow-IsValid now t host port v =
    allow_at-IsValid now _ (cb_find_or_create t host port).1
      (cb_find_or_create-IsValid t host port v)

pub cb_success-IsValid :
    (now : ℕ) (t : Breakers) (host : Bytes) (port : ℕ)
    → IsValid t
    → IsValid (cb_success now t host port)
unfolding cb_success
cb_success-IsValid now t host port v =
    modify_at-IsValid (success_breaker now) _ (cb_find_or_create t host port).1
      (upstream-success now) (success_breaker-IsSound now) (cb_find_or_create-IsValid t host port v)

pub cb_failure-IsValid :
    (now : ℕ) (t : Breakers) (host : Bytes) (port : ℕ)
    → IsValid t
    → IsValid (cb_failure now t host port)
unfolding cb_failure
cb_failure-IsValid now t host port v =
    modify_at-IsValid (failure_breaker now) _ (cb_find_or_create t host port).1
      (upstream-failure now) (failure_breaker-IsSound now) (cb_find_or_create-IsValid t host port v)

-- The three calls that reach the table, with the time that each reads.
pub data Call : Type 0 where
  allows succeeds fails : ℕ → Bytes → ℕ → Call

pub step : Breakers → Call → Breakers
step t (allows now host port) = (cb_allow now t host port).0
step t (succeeds now host port) = cb_success now t host port
step t (fails now host port) = cb_failure now t host port

unfoldable pub run : Breakers → List Call → Breakers
unfolding step
run t [] = t
run t (c ∷ cs) = run (step t c) cs

pub step-IsValid : (t : Breakers) (c : Call) → IsValid t → IsValid (step t c)
unfolding step
step-IsValid t (allows now host port) v = cb_allow-IsValid now t host port v
step-IsValid t (succeeds now host port) v = cb_success-IsValid now t host port v
step-IsValid t (fails now host port) v = cb_failure-IsValid now t host port v

-- Every sequence of calls keeps a well-formed table of breakers well-formed: it never holds more
-- than `max_breakers` entries or two for one upstream, and a closed breaker is always below its
-- threshold of consecutive failures.
pub run-IsValid : (t : Breakers) (cs : List Call) → IsValid t → IsValid (run t cs)
unfolding run
run-IsValid t [] v = v
run-IsValid t (c ∷ cs) v = run-IsValid (step t c) cs (step-IsValid t c v)
