-- ===== src/HttpPool/Breaker/Table.antt =====
-- The breakers as a table from keys to breakers, and what each call does to that table.
use vmod_wasm.Base.{
  ℕ, zero, suc, ◌<◌, ◌≡◌, ◌≢◌, ◌⊎◌, refl, sym, ap, ◌∙◌, true, false, inl, inr, List, [], ◌∷◌, ◌++◌,
  Option, none, some, arith, leb, if◌then◌else◌, Bool-cases, Option-cases, length, get_elem?, set,
  Bytes, bytes_eq, bytes_eq_iff,
}
use vmod_wasm.HttpPool.Breaker.{
  Breaker, Breakers, upstream_key, new_breaker, find_breaker, create_breaker, cb_find_or_create,
  allow_breaker, success_breaker, failure_breaker, modify_breaker, modify_at, allow_at, cb_allow,
  cb_success, cb_failure,
}

-- The breaker in use for a key.
unfoldable pub lookup_breaker : Bytes → List Breaker → Option Breaker
lookup_breaker key [] = none
lookup_breaker key (b ∷ bs) = if bytes_eq b.upstream key then some b else lookup_breaker key bs

-- The entry at the index that `find_breaker` gives.
pub find_breaker_sound :
    (key : Bytes) (bs : List Breaker) (i : ℕ)
    → find_breaker key bs ≡ some i
    → (b : Breaker) × (get_elem? bs i ≡ some b)
      × (lookup_breaker key bs ≡ some b)
      × (b.upstream ≡ key)
unfolding find_breaker lookup_breaker
find_breaker_sound key [] i e = absurd (cc)
find_breaker_sound key (b ∷ bs) i e = elim (Bool-cases (bytes_eq b.upstream key)) [
  | inl hit ↦ (b, ground arith, rw hit, (bytes_eq_iff b.upstream key).0 hit)
  | inr miss ↦ elim (Option-cases (find_breaker key bs)) [
    | inl none_found ↦ absurd (ground arith)
    | inr (j, found) ↦
        let (c, at, looked, keyed) = find_breaker_sound key bs j found in
        (c, ground arith, rw miss looked, keyed)
  ]
]

pub find_breaker-none :
    (key : Bytes) (bs : List Breaker) → find_breaker key bs ≡ none → lookup_breaker key bs ≡ none
unfolding find_breaker lookup_breaker
find_breaker-none key [] e = refl
find_breaker-none key (b ∷ bs) e = ground (arith, find_breaker-none key bs)

pub lookup_breaker-set :
    (key k : Bytes) (bs : List Breaker) (i : ℕ) (b : Breaker)
    → find_breaker key bs ≡ some i
    → b.upstream ≡ key
    → lookup_breaker k (set bs i b) ≡ (if bytes_eq key k then some b else lookup_breaker k bs)
unfolding find_breaker lookup_breaker
lookup_breaker-set key k [] i b e u = absurd (cc)
lookup_breaker-set key k (c ∷ bs) zero b e u =
    ground (arith, bytes_eq_iff c.upstream key, ap (λ x. bytes_eq x k) u)
lookup_breaker-set key k (c ∷ bs) (suc i) b e u = elim (Bool-cases (bytes_eq c.upstream key)) [
  | inl hit ↦ absurd (ground arith)
  | inr miss ↦ elim (Option-cases (find_breaker key bs)) [
    | inl nothing ↦ absurd (ground arith)
    | inr (j, found) ↦ ground (
      arith,
      bytes_eq_iff c.upstream k,
      bytes_eq_iff key k,
      bytes_eq_iff c.upstream key,
      lookup_breaker-set key k bs i b (ground arith) u,
    )
  ]
]

pub lookup_breaker-concat :
    (k : Bytes) (bs : List Breaker) (b : Breaker)
    → lookup_breaker k (bs ++ b ∷ []) ≡ elim (lookup_breaker k bs) [
      | some c ↦ some c
      | none ↦ if bytes_eq b.upstream k then some b else none
    ]
unfolding lookup_breaker
lookup_breaker-concat k [] b = refl
lookup_breaker-concat k (c ∷ bs) b = ground (arith, lookup_breaker-concat k bs b)

-- The breaker that a call for `key` works on: the one in use, or a new one.
abbrev pub entry : Bytes → List Breaker → Breaker
entry key bs = elim (lookup_breaker key bs) [ some b ↦ b | none ↦ new_breaker key ]

-- There is a breaker for the key, or room for one more.
abbrev pub HasRoom : Breakers → Bytes → Type 0
HasRoom t key = (lookup_breaker key t.breakers ≢ none) ⊎ (length t.breakers < t.max_breakers)

-- What `cb_find_or_create` hands back where there is room.
pub record Locates (t : Breakers) (key : Bytes) (r : Breakers × Option ℕ) : Type 0 where
  pub index : ℕ
  pub found : r.1 ≡ some index
  pub here : get_elem? r.0.breakers index ≡ some (entry key t.breakers)
  pub keyed : (entry key t.breakers).upstream ≡ key
  pub written :
      (k : Bytes) (b : Breaker)
      → b.upstream ≡ key
      → lookup_breaker k (set r.0.breakers index b)
        ≡ (if bytes_eq key k then some b else lookup_breaker k t.breakers)

get_elem?-concat : (bs : List Breaker) (b : Breaker) → get_elem? (bs ++ b ∷ []) (length bs) ≡ some b
get_elem?-concat [] b = refl
get_elem?-concat (c ∷ bs) b = get_elem?-concat bs b

set-concat : (bs : List Breaker) (b c : Breaker) → set (bs ++ b ∷ []) (length bs) c ≡ bs ++ c ∷ []
set-concat [] b c = refl
set-concat (x ∷ bs) b c = ap (◌∷◌ x) (set-concat bs b c)

lookup_breaker_last :
    (k key : Bytes) (bs : List Breaker) (b : Breaker)
    → lookup_breaker key bs ≡ none
    → b.upstream ≡ key
    → lookup_breaker k (bs ++ b ∷ []) ≡ (if bytes_eq key k then some b else lookup_breaker k bs)
lookup_breaker_last k key bs b missing u = elim (Bool-cases (bytes_eq key k)) [
  | inl same ↦
      let e : key ≡ k = (bytes_eq_iff key k).0 same in
      let m : lookup_breaker k bs ≡ none = rw (← e) missing in
      let hit : bytes_eq b.upstream k ≡ true = rw u same in
      ground (arith, lookup_breaker-concat k bs b)
  | inr other ↦
      let miss : bytes_eq b.upstream k ≡ false = rw u other in
      ground (arith, lookup_breaker-concat k bs b)
]

create_breaker-Locates :
    (t : Breakers) (key : Bytes)
    → lookup_breaker key t.breakers ≡ none
    → length t.breakers < t.max_breakers
    → Locates t key (create_breaker t key)
unfolding create_breaker
create_breaker-Locates t key missing room =
    let e : leb t.max_breakers (length t.breakers) ≡ false = ground arith in
    let fresh : entry key t.breakers ≡ new_breaker key = ground arith in
    rw e (record {
      index = length t.breakers;
      found = refl;
      here = get_elem?-concat t.breakers (new_breaker key) ∙ ap some (sym fresh);
      keyed = ap (λ b. b.upstream) fresh;
      written = λ k b u.
          rw (set-concat t.breakers (new_breaker key) b)
            (lookup_breaker_last k key t.breakers b missing u);
    })

pub cb_find_or_create-Locates :
    (t : Breakers) (host : Bytes) (port : ℕ)
    → HasRoom t (upstream_key host port)
    → Locates t (upstream_key host port) (cb_find_or_create t host port)
unfolding cb_find_or_create
cb_find_or_create-Locates t host port room =
    let key = upstream_key host port in
    elim (Option-cases (find_breaker key t.breakers)) [
      | inl missing ↦
          let nothing = find_breaker-none key t.breakers missing in
          rw (missing, cb_find_or_create) (create_breaker-Locates t key nothing (ground arith))
      | inr (i, hit) ↦
          let (b, at, looked, keyed) = find_breaker_sound key t.breakers i hit in
          let same : entry key t.breakers ≡ b = ground arith in
          rw (hit, cb_find_or_create)
            (record {
              index = i;
              found = refl;
              here = at ∙ ap some (sym same);
              keyed = ap (λ c. c.upstream) same ∙ keyed;
              written = λ k c u. lookup_breaker-set key k t.breakers i c hit u;
            })
    ]

pub upstream-success : (now : ℕ) (b : Breaker) → (success_breaker now b).upstream ≡ b.upstream
unfolding success_breaker
upstream-success now b = refl

pub upstream-failure : (now : ℕ) (b : Breaker) → (failure_breaker now b).upstream ≡ b.upstream
unfolding failure_breaker
upstream-failure now b = refl

pub upstream-allow : (now : ℕ) (b : Breaker) → (allow_breaker now b).0.upstream ≡ b.upstream
unfolding allow_breaker
upstream-allow now b = ground arith

modify_at_written :
    (f : Breaker → Breaker) (t : Breakers) (key k : Bytes) (r : Breakers × Option ℕ)
    → ((b : Breaker) → (f b).upstream ≡ b.upstream)
    → Locates t key r
    → lookup_breaker k (modify_at f r).breakers
      ≡ (if bytes_eq key k then some (f (entry key t.breakers)) else lookup_breaker k t.breakers)
unfolding modify_at modify_breaker
modify_at_written f t key k (t', found) keeps l =
    rw (l.found, l.here, modify_at, modify_breaker)
      (l.written k (f (entry key t.breakers)) (keeps _ ∙ l.keyed))

allow_at_written :
    (now : ℕ) (t : Breakers) (key k : Bytes) (r : Breakers × Option ℕ)
    → Locates t key r
    → (lookup_breaker k (allow_at now r.0 r.1).0.breakers ≡ (
        if bytes_eq key k
        then some (allow_breaker now (entry key t.breakers)).0
        else lookup_breaker k t.breakers))
      × ((allow_at now r.0 r.1).1 ≡ (allow_breaker now (entry key t.breakers)).1)
unfolding allow_at
allow_at_written now t key k (t', found) l =
    rw (l.found, l.here, allow_at)
      (
        l.written k (allow_breaker now (entry key t.breakers)).0 (upstream-allow now _ ∙ l.keyed),
        refl,
      )

module _ (now : ℕ) (t : Breakers) (host : Bytes) (port : ℕ)
    (room : HasRoom t (upstream_key host port)) where
  -- Where the upstream has a breaker or the table has room, a failure replaces the breaker of that
  -- upstream, an old or a new one, by its `failure_breaker`, and no other.
  pub cb_failure-table :
      (k : Bytes)
      → lookup_breaker k (cb_failure now t host port).breakers ≡ (
          if bytes_eq (upstream_key host port) k
          then some (failure_breaker now (entry (upstream_key host port) t.breakers))
          else lookup_breaker k t.breakers)
  unfolding cb_failure
  cb_failure-table k =
      modify_at_written (failure_breaker now) t (upstream_key host port) k _ (upstream-failure now)
        (cb_find_or_create-Locates t host port room)

  pub cb_success-table :
      (k : Bytes)
      → lookup_breaker k (cb_success now t host port).breakers ≡ (
          if bytes_eq (upstream_key host port) k
          then some (success_breaker now (entry (upstream_key host port) t.breakers))
          else lookup_breaker k t.breakers)
  unfolding cb_success
  cb_success-table k =
      modify_at_written (success_breaker now) t (upstream_key host port) k _ (upstream-success now)
        (cb_find_or_create-Locates t host port room)

  -- Where the upstream has a breaker or the table has room, `cb_allow` answers for that breaker,
  -- writes back what `allow_breaker` makes of it and touches no other.
  pub cb_allow-table :
      (k : Bytes)
      → (lookup_breaker k (cb_allow now t host port).0.breakers ≡ (
          if bytes_eq (upstream_key host port) k
          then some (allow_breaker now (entry (upstream_key host port) t.breakers)).0
          else lookup_breaker k t.breakers))
        × ((cb_allow now t host port).1
            ≡ (allow_breaker now (entry (upstream_key host port) t.breakers)).1)
  unfolding cb_allow
  cb_allow-table k =
      allow_at_written now t (upstream_key host port) k _
        (cb_find_or_create-Locates t host port room)
