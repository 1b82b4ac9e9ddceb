-- ===== src/HttpPool/Breaker/History.antt =====
-- What a history of calls for one upstream makes of its breaker.
use vmod_wasm.Base.{
  ℕ, ◌+◌, ◌≤◌, ◌<◌, ◌≡◌, ◌↔◌, refl, ap, ◌∙◌, inl, inr, Bool, true, false, List, [], ◌∷◌, map,
  Option, none, some, arith, leb, ltb, if◌then◌else◌, Bool-cases, Option-cases, length, Bytes,
  bytes_eq_refl,
}
use vmod_wasm.HttpPool.Breaker.{
  cb_closed, cb_open, Breaker, Breakers, upstream_key, new_breaker, find_breaker, create_breaker,
  cb_find_or_create, allow_breaker, failure_breaker, allow_at, cb_allow, cb_failure, guard_callout,
}
use vmod_wasm.HttpPool.Breaker.Table.{
  lookup_breaker, entry, HasRoom, cb_failure-table, cb_allow-table, find_breaker_sound,
}
use vmod_wasm.HttpPool.Breaker.Invariant.{IsSound, run, fails}

pub failure-HasRoom :
    (now : ℕ) (t : Breakers) (host : Bytes) (port : ℕ)
    → HasRoom t (upstream_key host port)
    → HasRoom (cb_failure now t host port) (upstream_key host port)
failure-HasRoom now t host port room =
    let e = cb_failure-table now t host port room (upstream_key host port) in
    let s = bytes_eq_refl (upstream_key host port) in inl (ground arith)

entry-failure :
    (now : ℕ) (t : Breakers) (host : Bytes) (port : ℕ)
    → HasRoom t (upstream_key host port)
    → entry (upstream_key host port) (cb_failure now t host port).breakers
      ≡ failure_breaker now (entry (upstream_key host port) t.breakers)
entry-failure now t host port room =
    let e = cb_failure-table now t host port room (upstream_key host port) in
    let s = bytes_eq_refl (upstream_key host port) in ground arith

-- A table that is full and has no breaker for the upstream lets the call through.
cb_allow_full :
    (now : ℕ) (t : Breakers) (host : Bytes) (port : ℕ)
    → lookup_breaker (upstream_key host port) t.breakers ≡ none
    → t.max_breakers ≤ length t.breakers
    → cb_allow now t host port ≡ (t, true)
unfolding cb_allow cb_find_or_create create_breaker allow_at
cb_allow_full now t host port missing full =
    elim (Option-cases (find_breaker (upstream_key host port) t.breakers)) [
      | inl nothing ↦
          let e : leb t.max_breakers (length t.breakers) ≡ true = ground arith in
          rw (nothing, cb_allow, cb_find_or_create) (rw (e, create_breaker))
      | inr (i, hit) ↦
          let (b, at, looked, keyed) =
            find_breaker_sound (upstream_key host port) t.breakers i hit in
          absurd (cc)
    ]

-- A breaker refuses a call at this time.
abbrev pub Refuses : ℕ → Option Breaker → Type 0
Refuses now none = ⊥
Refuses now (some b) = (b.state ≡ cb_open) × (now < b.last_failure_time + b.half_open_timeout_s)

new_breaker_allows : (now : ℕ) (key : Bytes) → (allow_breaker now (new_breaker key)).1 ≡ true
unfolding allow_breaker
new_breaker_allows now key = refl

allow_breaker-Refuses :
    (now : ℕ) (b : Breaker) → ((allow_breaker now b).1 ≡ false) ↔ Refuses now (some b)
unfolding allow_breaker
allow_breaker-Refuses now b = ground arith

-- `cb_allow` answers -1 exactly when the upstream has a breaker, that breaker is open, and less than
-- `half_open_timeout_s` has passed since its last failure.
pub cb_allow-Refuses :
    (now : ℕ) (t : Breakers) (host : Bytes) (port : ℕ)
    → ((cb_allow now t host port).1 ≡ false)
      ↔ Refuses now (lookup_breaker (upstream_key host port) t.breakers)
cb_allow-Refuses now t host port =
    let key = upstream_key host port in
    elim (Option-cases (lookup_breaker (upstream_key host port) t.breakers)) [
      | inr (b, known) ↦
          let r = (cb_allow-table now t host port (inl (λ none_known. cc)) []).1 in
          rw known (
            let same : entry (upstream_key host port) t.breakers ≡ b = ground arith in
            rw (r, same) (allow_breaker-Refuses now b))
      | inl unknown ↦ elim (Bool-cases (leb t.max_breakers (length t.breakers))) [
        | inl full ↦
            let e = cb_allow_full now t host port unknown (ground arith) in
            rw unknown (rw e (λ h. cc, λ h. absurd h))
        | inr room ↦
            let r = (cb_allow-table now t host port (inr (ground arith)) []).1 in
            let e : entry key t.breakers ≡ new_breaker key = ground arith in
            rw unknown (
              λ h. absurd (cc (r, ap (λ b. (allow_breaker now b).1) e, new_breaker_allows now key)),
              λ h. absurd h,
            )
      ]
    ]

failures_breaker : Breaker → List ℕ → Breaker
failures_breaker b [] = b
failures_breaker b (now ∷ times) = failures_breaker (failure_breaker now b) times

run-fails :
    (t : Breakers) (host : Bytes) (port : ℕ) (times : List ℕ)
    → HasRoom t (upstream_key host port)
    → entry (upstream_key host port) (run t (map (λ now. fails now host port) times)).breakers
      ≡ failures_breaker (entry (upstream_key host port) t.breakers) times
unfolding run failures_breaker
run-fails t host port [] room = refl
run-fails t host port (now ∷ times) room =
    run-fails (cb_failure now t host port) host port times (failure-HasRoom now t host port room)
    ∙ ap (λ b. failures_breaker b times) (entry-failure now t host port room)

failures_breaker_open :
    (b : Breaker) (times : List ℕ) → b.state ≡ cb_open → (failures_breaker b times).state ≡ cb_open
unfolding failures_breaker failure_breaker
failures_breaker_open b [] h = h
failures_breaker_open b (now ∷ times) h =
    failures_breaker_open (failure_breaker now b) times (ground arith)

failures_breaker_closed :
    (b : Breaker) (times : List ℕ)
    → b.state ≡ cb_closed
    → b.threshold ≡ 5
    → b.consecutive_failures < 5
    → (failures_breaker b times).state
      ≡ (if ltb (b.consecutive_failures + length times) 5 then cb_closed else cb_open)
unfolding failures_breaker failure_breaker
failures_breaker_closed b [] c h f = ground arith
failures_breaker_closed b (now ∷ times) c h f =
    elim (Bool-cases (ltb (b.consecutive_failures + 1) 5)) [
      | inl below ↦
          let e =
            failures_breaker_closed (failure_breaker now b) times (ground arith) h (ground arith) in
          ground arith
      | inr reached ↦
          let e = failures_breaker_open (failure_breaker now b) times (ground arith) in ground arith
    ]

-- From a closed breaker with no failure on record, failures alone leave the breaker closed up to
-- the fourth, and it is open from the fifth on.
pub cb_opens_at_threshold :
    (t : Breakers) (host : Bytes) (port : ℕ) (times : List ℕ)
    → HasRoom t (upstream_key host port)
    → IsSound (entry (upstream_key host port) t.breakers)
    → (entry (upstream_key host port) t.breakers).state ≡ cb_closed
    → (entry (upstream_key host port) t.breakers).consecutive_failures ≡ 0
    → (entry
        (upstream_key host port)
        (run t (map (λ now. fails now host port) times)).breakers).state
      ≡ (if ltb (length times) 5 then cb_closed else cb_open)
cb_opens_at_threshold t host port times room s closed none_yet =
    let b = entry (upstream_key host port) t.breakers in
    let e = failures_breaker_closed b times closed s.threshold_set (omega arith) in
    let n : b.consecutive_failures + length times ≡ length times = omega arith in
    ap (λ b. b.state) (run-fails t host port times room)
    ∙ e
    ∙ ap (λ m. if ltb m 5 then cb_closed else cb_open) n

-- The answers to callouts made one after another, each at its two readings of the clock.
pub callouts : Breakers → Bytes → ℕ → List (ℕ × ℕ) → List Bool
callouts t host port [] = []
callouts t host port ((now, later) ∷ times) =
    let (t', allowed) = guard_callout now later t host port in allowed ∷ callouts t' host port times

-- Each callout comes less than `d` after the refusal before it, the first less than `d` after `last`.
abbrev pub Steady : ℕ → ℕ → List (ℕ × ℕ) → Type 0
Steady d last [] = Unit {0}
Steady d last ((now, later) ∷ times) = (now < last + d) × Steady d later times

abbrev pub AllRefused : List Bool → Type 0
AllRefused [] = Unit {0}
AllRefused (a ∷ answers) = (a ≡ false) × AllRefused answers

record StaysOpen (d later : ℕ) (t : Breakers) (key : Bytes) : Type 0 where
  breaker : Breaker
  known : lookup_breaker key t.breakers ≡ some breaker
  is_open : breaker.state ≡ cb_open
  failed_at : breaker.last_failure_time ≡ later
  timeout : breaker.half_open_timeout_s ≡ d

refused_breaker :
    (now later : ℕ) (b : Breaker)
    → b.state ≡ cb_open
    → now < b.last_failure_time + b.half_open_timeout_s
    → ((failure_breaker later (allow_breaker now b).0).state ≡ cb_open)
      × ((failure_breaker later (allow_breaker now b).0).last_failure_time ≡ later)
      × ((failure_breaker later (allow_breaker now b).0).half_open_timeout_s
          ≡ b.half_open_timeout_s)
unfolding failure_breaker allow_breaker
refused_breaker now later b h lt = ground arith

guard_callout_refused :
    (d last now later : ℕ) (t : Breakers) (host : Bytes) (port : ℕ)
    → StaysOpen d last t (upstream_key host port)
    → now < last + d
    → ((guard_callout now later t host port).1 ≡ false)
      × StaysOpen d later (guard_callout now later t host port).0 (upstream_key host port)
unfolding guard_callout
guard_callout_refused d last now later t host port o lt =
    let key = upstream_key host port in
    let b = o.breaker in
    let same = bytes_eq_refl key in
    let entered : entry key t.breakers ≡ b = let k = o.known in ground arith in
    let fresh : now < b.last_failure_time + b.half_open_timeout_s =
      omega (arith, o.failed_at, o.timeout) in
    let refused : (cb_allow now t host port).1 ≡ false =
      (cb_allow-Refuses now t host port).1 (rw o.known (o.is_open, fresh)) in
    let asked = (cb_allow-table now t host port (inl (λ e. cc (o.known, e))) key).0 in
    let counted : lookup_breaker key (cb_allow now t host port).0.breakers
        ≡ some (allow_breaker now b).0 =
      asked ∙ rw (same, entered) in
    let entered' : entry key (cb_allow now t host port).0.breakers ≡ (allow_breaker now b).0 =
      ground arith in
    let failed =
      cb_failure-table later (cb_allow now t host port).0 host port (inl (λ e. cc (counted, e)))
        key in
    let after = refused_breaker now later b o.is_open fresh in
    rw (refused, guard_callout)
      (
        refl,
        record {
          breaker = failure_breaker later (allow_breaker now b).0;
          known = failed ∙ rw (same, entered');
          is_open = after.0;
          failed_at = after.1;
          timeout = after.2 ∙ o.timeout;
        },
      )

callouts-Steady :
    (d last : ℕ) (t : Breakers) (host : Bytes) (port : ℕ) (times : List (ℕ × ℕ))
    → StaysOpen d last t (upstream_key host port)
    → Steady d last times
    → AllRefused (callouts t host port times)
unfolding callouts
callouts-Steady d last t host port [] o s = tt
callouts-Steady d last t host port ((now, later) ∷ times) o s =
    let (refused, o') = guard_callout_refused d last now later t host port o s.0 in
    (refused, callouts-Steady d later _ host port times o' s.1)

-- An open breaker whose upstream is called again and again, each time less than
-- `half_open_timeout_s` after the refusal before, refuses every one of these calls, however long
-- that goes on: a refusal is recorded as a failure and starts the timeout anew.
pub cb_never_half_opens :
    (t : Breakers) (host : Bytes) (port : ℕ) (b : Breaker) (times : List (ℕ × ℕ))
    → lookup_breaker (upstream_key host port) t.breakers ≡ some b
    → b.state ≡ cb_open
    → Steady b.half_open_timeout_s b.last_failure_time times
    → AllRefused (callouts t host port times)
cb_never_half_opens t host port b times known o steady =
    callouts-Steady b.half_open_timeout_s b.last_failure_time t host port times
      (record { breaker = b; known = known; is_open = o; failed_at = refl; timeout = refl }) steady
