-- ===== src/StorePool/Exclusion.antt =====
-- The flags of the slots keep the threads apart.
use vmod_wasm.Base.{
  ℕ, zero, suc, ◌+◌, ◌%◌, ◌^◌, ◌≡◌, ◌≢◌, ◌≤◌, refl, sym, ap, ◌∙◌, inl, inr, arith, true, false,
  List, [], ◌∷◌, Option, none, some, leb, ◌==◌, if◌then◌else◌, Bool-cases, Option-cases, incr64,
  length, get_elem?, set, Bytes,
}
use vmod_wasm.StorePool.{
  Slot, StorePool, Thread, idle, scanning, claimed, holding, fell_back, restored, try_claim,
  take_slot, give_back, step_thread, World, Event, steps, writes, guest_write, happen, run,
}

-- The slot that a thread has won.
abbrev pub owns : ℕ → Thread → ℕ
owns x idle = 0
owns x (scanning start i) = 0
owns x (claimed start i idx) = if idx == x then 1 else 0
owns x (holding idx) = if idx == x then 1 else 0
owns x fell_back = 0

abbrev pub owners : ℕ → List Thread → ℕ
owners x [] = 0
owners x (th ∷ ths) = owns x th + owners x ths

abbrev flag : Slot → ℕ
flag s = if s.in_use then 1 else 0

abbrev flag_of : Option Slot → ℕ
flag_of none = 0
flag_of (some s) = flag s

abbrev pub flag_at : ℕ → List Slot → ℕ
flag_at x slots = flag_of (get_elem? slots x)

-- Each flag that is set belongs to exactly one thread, and no thread has won a slot with a clear flag.
abbrev pub IsExclusive : World → Type 0
IsExclusive w = (x : ℕ) → owners x w.threads ≡ flag_at x w.pool.slots

flag_at-set :
    (x : ℕ) (slots : List Slot) (i : ℕ) {s : Slot} (d : Slot)
    → get_elem? slots i ≡ some s
    → flag_at x (set slots i d) ≡ (if i == x then flag d else flag_at x slots)
flag_at-set x [] i d e = absurd (cc)
flag_at-set zero (y ∷ slots) zero d e = ground arith
flag_at-set (suc x) (y ∷ slots) zero d e = ground arith
flag_at-set zero (y ∷ slots) (suc i) d e = ground arith
flag_at-set (suc x) (y ∷ slots) (suc i) {s} d e =
    let ih = flag_at-set x slots i {s = s} d e in ground arith

owners-set :
    (x : ℕ) (ths : List Thread) (t : ℕ) {th : Thread} (new : Thread)
    → get_elem? ths t ≡ some th
    → owners x (set ths t new) + owns x th ≡ owners x ths + owns x new
owners-set x [] t new e = absurd (cc)
owners-set x (y ∷ ths) zero {th} new e = let same : y ≡ th = cc in rw (← same) (omega arith)
owners-set x (y ∷ ths) (suc t) {th} new e = omega (arith, owners-set x ths t {th = th} new e)

pub owners_ge :
    (x : ℕ) (ths : List Thread) (t : ℕ) {th : Thread}
    → get_elem? ths t ≡ some th
    → owns x th ≤ owners x ths
owners_ge x [] t e = absurd (cc)
owners_ge x (y ∷ ths) zero {th} e = let same : y ≡ th = cc in rw (← same) (omega arith)
owners_ge x (y ∷ ths) (suc t) {th} e = omega (arith, owners_ge x ths t {th = th} e)

pub owners_two :
    (x : ℕ) (ths : List Thread) (t u : ℕ) {a b : Thread}
    → t ≢ u
    → get_elem? ths t ≡ some a
    → get_elem? ths u ≡ some b
    → owns x a + owns x b ≤ owners x ths
owners_two x [] t u ne e f = absurd (cc)
owners_two x (y ∷ ths) zero zero ne e f = absurd (ne refl)
owners_two x (y ∷ ths) zero (suc u) {a} {b} ne e f =
    let same : y ≡ a = cc in rw (← same) (omega (arith, owners_ge x ths u {th = b} f))
owners_two x (y ∷ ths) (suc t) zero {a} {b} ne e f =
    let same : y ≡ b = cc in rw (← same) (omega (arith, owners_ge x ths t {th = a} e))
owners_two x (y ∷ ths) (suc t) (suc u) {a} {b} ne e f =
    omega (arith, owners_two x ths t u {a = a} {b = b} (λ q. ne (ap suc q)) e f)

in_use-restored : (snapshot : Option Bytes) (s : Slot) → (restored snapshot s).in_use ≡ s.in_use
unfolding restored
in_use-restored none s = refl
in_use-restored (some snapshot) s = ground arith

-- What a step of a thread does to the flags it does to what the thread owns.
abbrev Balanced : ℕ → StorePool → Thread → StorePool × Thread → Type 0
Balanced x p th r = owns x r.1 + flag_at x p.slots ≡ owns x th + flag_at x r.0.slots

try_claim-Balanced :
    (x : ℕ) (p : StorePool) (start i idx : ℕ)
    → Balanced x p (scanning start i) (try_claim p start i idx (get_elem? p.slots idx))
unfolding try_claim
try_claim-Balanced x p start i idx = elim (Option-cases (get_elem? p.slots idx)) [
  | inl missing ↦ rw (missing, try_claim) (omega arith)
  | inr (s, at) ↦ elim (Bool-cases s.in_use) [
    | inl used ↦ rw (at, try_claim) (rw used (omega arith))
    | inr free ↦
        let now = flag_at-set x p.slots idx {s = s} (record s { in_use = true }) at in
        let before : idx ≡ x → flag_at x p.slots ≡ 0 = λ e. rw (← e, at) (rw free refl) in
        rw (at, try_claim)
          (rw (free, now)
            (elim (Bool-cases (idx == x)) [
              | inl same ↦ let z = before (ground arith) in rw same (omega arith)
              | inr other ↦ rw other (omega arith)
            ]))
  ]
]

take_slot-Balanced :
    (x : ℕ) (p : StorePool) (start i idx : ℕ)
    → (idx ≡ x → flag_at x p.slots ≡ 1)
    → Balanced x p (claimed start i idx) (take_slot p start i idx (get_elem? p.slots idx))
unfolding take_slot
take_slot-Balanced x p start i idx set_flag = elim (Option-cases (get_elem? p.slots idx)) [
  | inl missing ↦ rw (missing, take_slot) (omega arith)
  | inr (s, at) ↦ elim (Bool-cases s.ready) [
    | inl ready ↦
        let taken = record (restored p.warm_ref s) { seq = incr64 s.seq } in
        let now = flag_at-set x p.slots idx {s = s} taken at in
        let kept : flag taken ≡ flag s =
          ap (λ b. if b then 1 else 0) (in_use-restored p.warm_ref s) in
        let before : idx ≡ x → flag_at x p.slots ≡ flag s = λ e. rw (← e, at) refl in
        rw (at, take_slot)
          (simp ready (
            rw now (elim (Bool-cases (idx == x)) [
              | inl same ↦ let z = before (ground arith) in rw (same, kept) (omega arith)
              | inr other ↦ rw other (omega arith)
            ])))
    | inr unready ↦
        let now =
          flag_at-set x p.slots idx {s = s} (record s { in_use = false; ready = false }) at in
        rw (at, take_slot)
          (simp unready (
            rw now (elim (Bool-cases (idx == x)) [
              | inl same ↦ let z = set_flag (ground arith) in rw same (omega arith)
              | inr other ↦ rw other (omega arith)
            ])))
  ]
]

give_back-Balanced :
    (x : ℕ) (p : StorePool) (idx : ℕ)
    → (idx ≡ x → flag_at x p.slots ≡ 1)
    → Balanced x p (holding idx) (give_back p idx (get_elem? p.slots idx), idle)
unfolding give_back
give_back-Balanced x p idx set_flag = elim (Option-cases (get_elem? p.slots idx)) [
  | inl missing ↦
      let before : idx ≡ x → flag_at x p.slots ≡ 0 = λ e. rw (← e, missing) refl in
      rw (missing, give_back)
        (elim (Bool-cases (idx == x)) [
          | inl same ↦
              let a = before (ground arith) in
              let b = set_flag (ground arith) in absurd (omega arith)
          | inr other ↦ rw other (omega arith)
        ])
  | inr (s, at) ↦
      let now = flag_at-set x p.slots idx {s = s} (record s { in_use = false }) at in
      rw (at, give_back)
        (rw now (elim (Bool-cases (idx == x)) [
          | inl same ↦ let z = set_flag (ground arith) in rw same (omega arith)
          | inr other ↦ rw other (omega arith)
        ]))
]

pub flag_at-le_one : (x : ℕ) (slots : List Slot) → flag_at x slots ≤ 1
flag_at-le_one x slots = elim (Option-cases (get_elem? slots x)) [
  | inl missing ↦ rw missing (omega arith)
  | inr (s, at) ↦ rw at (ground arith)
]

step_thread-Balanced :
    (x : ℕ) (p : StorePool) (th : Thread)
    → owns x th ≤ flag_at x p.slots
    → Balanced x p th (step_thread p th)
unfolding step_thread
step_thread-Balanced x p idle h = omega arith
step_thread-Balanced x p (scanning start i) h = elim (Bool-cases (leb (length p.slots) i)) [
  | inl done ↦ rw done (omega arith)
  | inr more ↦ rw more (try_claim-Balanced x p start i ((start + i) % 2 ^ 64 % length p.slots))
]
step_thread-Balanced x p (claimed start i idx) h =
    take_slot-Balanced x p start i idx (λ e. let l = flag_at-le_one x p.slots in ground arith)
step_thread-Balanced x p (holding idx) h =
    give_back-Balanced x p idx (λ e. let l = flag_at-le_one x p.slots in ground arith)
step_thread-Balanced x p fell_back h = omega arith

guest_write-flags :
    (x : ℕ) (p : StorePool) (th : Thread) (memory : Bytes)
    → flag_at x (guest_write p th memory).slots ≡ flag_at x p.slots
unfolding guest_write
guest_write-flags x p idle memory = refl
guest_write-flags x p (scanning start i) memory = refl
guest_write-flags x p (claimed start i idx) memory = refl
guest_write-flags x p (holding idx) memory = elim (Option-cases (get_elem? p.slots idx)) [
  | inl missing ↦ rw (missing, guest_write) refl
  | inr (s, at) ↦
      let now = flag_at-set x p.slots idx {s = s} (record s { memory = memory }) at in
      let before : idx ≡ x → flag_at x p.slots ≡ flag s = λ e. rw (← e, at) refl in
      rw (at, guest_write)
        (rw now (elim (Bool-cases (idx == x)) [
          | inl same ↦ let z = before (ground arith) in rw same (sym z)
          | inr other ↦ rw other refl
        ]))
]
guest_write-flags x p fell_back memory = refl

pub happen-IsExclusive : (w : World) (e : Event) → IsExclusive w → IsExclusive (happen w e)
unfolding happen
happen-IsExclusive w (steps t) v x = elim (Option-cases (get_elem? w.threads t)) [
  | inl missing ↦ rw (missing, happen) (v x)
  | inr (th, at) ↦
      let own = owners_ge x w.threads t {th = th} at in
      let b = step_thread-Balanced x w.pool th (let e = v x in omega arith) in
      let s = owners-set x w.threads t {th = th} (step_thread w.pool th).1 at in
      rw (at, happen) (let e = v x in omega arith)
]
happen-IsExclusive w (writes t memory) v x = elim (Option-cases (get_elem? w.threads t)) [
  | inl missing ↦ rw (missing, happen) (v x)
  | inr (th, at) ↦ rw (at, happen) (v x ∙ sym (guest_write-flags x w.pool th memory))
]

-- However the steps of the threads interleave, each flag that is set goes on belonging to exactly one
-- thread, and no thread owns a slot whose flag is clear.
pub run-IsExclusive : (w : World) (es : List Event) → IsExclusive w → IsExclusive (run w es)
unfolding run
run-IsExclusive w [] v = v
run-IsExclusive w (e ∷ es) v = run-IsExclusive (happen w e) es (happen-IsExclusive w e v)

-- However the steps of the threads interleave, from a pool whose set flags belong to one thread each,
-- two different threads never hold one slot.
pub run-holding_apart :
    (w : World) (es : List Event) (t u : ℕ) (idx : ℕ)
    → IsExclusive w
    → t ≢ u
    → get_elem? (run w es).threads t ≡ some (holding idx)
    → get_elem? (run w es).threads u ≢ some (holding idx)
run-holding_apart w es t u idx v ne e f =
    let two = owners_two idx (run w es).threads t u {a = holding idx} {b = holding idx} ne e f in
    let all = run-IsExclusive w es v idx in
    let one = flag_at-le_one idx (run w es).pool.slots in absurd (ground arith)
