-- ===== src/StorePool/Isolation.antt =====
-- The slot that a thread holds is its own, and what it finds there.
use vmod_wasm.Base.{
  ℕ, ◌+◌, ◌%◌, ◌^◌, ◌≡◌, ◌≢◌, refl, sym, ◌∙◌, inl, inr, arith, true, false, List, [], ◌∷◌, some,
  leb, Bool-cases, Option-cases, incr64, length, get_elem?, get_elem?-set_ne, Bytes,
}
use vmod_wasm.StorePool.{
  StorePool, Thread, idle, scanning, claimed, holding, fell_back, restored, try_claim, take_slot,
  give_back, step_thread, World, Event, steps, writes, guest_write, happen, run,
}
use vmod_wasm.StorePool.Exclusion.{
  owns, flag_at, IsExclusive, owners_two, flag_at-le_one, happen-IsExclusive,
}

-- The thread of an event.
abbrev pub actor : Event → ℕ
actor (steps t) = t
actor (writes t memory) = t

abbrev pub Others : ℕ → List Event → Type 0
Others t [] = Unit {0}
Others t (e ∷ es) = (t ≢ actor e) × Others t es

try_claim_other :
    (p : StorePool) (start i idx x : ℕ)
    → flag_at x p.slots ≡ 1
    → get_elem? (try_claim p start i idx (get_elem? p.slots idx)).0.slots x ≡ get_elem? p.slots x
unfolding try_claim
try_claim_other p start i idx x used = elim (Option-cases (get_elem? p.slots idx)) [
  | inl missing ↦ rw (missing, try_claim) refl
  | inr (s, at) ↦ elim (Bool-cases s.in_use) [
    | inl taken ↦ rw (at, try_claim) (simp taken refl)
    | inr free ↦
        let ne : idx ≢ x = λ e.
          absurd
            (let zero_flag : flag_at x p.slots ≡ 0 = rw (← e, at) (rw free refl) in omega arith) in
        rw (at, try_claim) (simp free (get_elem?-set_ne p.slots (record s { in_use = true }) ne))
  ]
]

take_slot_other :
    (p : StorePool) (start i idx x : ℕ)
    → idx ≢ x
    → get_elem? (take_slot p start i idx (get_elem? p.slots idx)).0.slots x ≡ get_elem? p.slots x
unfolding take_slot
take_slot_other p start i idx x ne = elim (Option-cases (get_elem? p.slots idx)) [
  | inl missing ↦ rw (missing, take_slot) refl
  | inr (s, at) ↦ elim (Bool-cases s.ready) [
    | inl ready ↦
        rw (at, take_slot)
          (simp ready
            (get_elem?-set_ne p.slots (record (restored p.warm_ref s) { seq = incr64 s.seq }) ne))
    | inr unready ↦
        rw (at, take_slot)
          (simp unready (get_elem?-set_ne p.slots (record s { in_use = false; ready = false }) ne))
  ]
]

give_back_other :
    (p : StorePool) (idx x : ℕ)
    → idx ≢ x
    → get_elem? (give_back p idx (get_elem? p.slots idx)).slots x ≡ get_elem? p.slots x
unfolding give_back
give_back_other p idx x ne = elim (Option-cases (get_elem? p.slots idx)) [
  | inl missing ↦ rw (missing, give_back) refl
  | inr (s, at) ↦ rw (at, give_back) (get_elem?-set_ne p.slots (record s { in_use = false }) ne)
]

-- A slot that is in use keeps its content in a step of a thread that does not own it.
step_thread_other :
    (p : StorePool) (th : Thread) (x : ℕ)
    → flag_at x p.slots ≡ 1
    → owns x th ≡ 0
    → get_elem? (step_thread p th).0.slots x ≡ get_elem? p.slots x
unfolding step_thread
step_thread_other p idle x used free = refl
step_thread_other p (scanning start i) x used free = elim (Bool-cases (leb (length p.slots) i)) [
  | inl done ↦ rw done refl
  | inr more ↦ rw more (try_claim_other p start i ((start + i) % 2 ^ 64 % length p.slots) x used)
]
step_thread_other p (claimed start i idx) x used free =
    take_slot_other p start i idx x (λ e. ground arith)
step_thread_other p (holding idx) x used free = give_back_other p idx x (λ e. ground arith)
step_thread_other p fell_back x used free = refl

guest_write_other :
    (p : StorePool) (th : Thread) (memory : Bytes) (x : ℕ)
    → owns x th ≡ 0
    → get_elem? (guest_write p th memory).slots x ≡ get_elem? p.slots x
unfolding guest_write
guest_write_other p idle memory x free = refl
guest_write_other p (scanning start i) memory x free = refl
guest_write_other p (claimed start i idx) memory x free = refl
guest_write_other p (holding idx) memory x free = elim (Option-cases (get_elem? p.slots idx)) [
  | inl missing ↦ rw (missing, guest_write) refl
  | inr (s, at) ↦
      rw (at, guest_write)
        (get_elem?-set_ne p.slots (record s { memory = memory }) (λ e. ground arith))
]
guest_write_other p fell_back memory x free = refl

-- A thread that holds a slot goes on holding it, and the slot stays as it is, in an event of another.
record Kept (t idx : ℕ) (w v : World) : Type 0 where
  held : get_elem? v.threads t ≡ some (holding idx)
  same : get_elem? v.pool.slots idx ≡ get_elem? w.pool.slots idx

unowned :
    (w : World) (t u idx : ℕ) {th : Thread}
    → IsExclusive w
    → t ≢ u
    → get_elem? w.threads t ≡ some (holding idx)
    → get_elem? w.threads u ≡ some th
    → (flag_at idx w.pool.slots ≡ 1) × (owns idx th ≡ 0)
unowned w t u idx {th} v ne held at =
    let two = owners_two idx w.threads t u {a = holding idx} {b = th} ne held at in
    let e = v idx in let l = flag_at-le_one idx w.pool.slots in (ground arith, ground arith)

happen-Kept :
    (w : World) (e : Event) (t idx : ℕ)
    → IsExclusive w
    → t ≢ actor e
    → get_elem? w.threads t ≡ some (holding idx)
    → Kept t idx w (happen w e)
unfolding happen
happen-Kept w (steps u) t idx v ne held = elim (Option-cases (get_elem? w.threads u)) [
  | inl missing ↦ rw (missing, happen) (record { held = held; same = refl })
  | inr (th, at) ↦
      let (used, free) = unowned w t u idx {th = th} v ne held at in
      rw (at, happen)
        (record {
          held = get_elem?-set_ne w.threads (step_thread w.pool th).1 (λ e. ne (sym e)) ∙ held;
          same = step_thread_other w.pool th idx used free;
        })
]
happen-Kept w (writes u memory) t idx v ne held = elim (Option-cases (get_elem? w.threads u)) [
  | inl missing ↦ rw (missing, happen) (record { held = held; same = refl })
  | inr (th, at) ↦
      let (used, free) = unowned w t u idx {th = th} v ne held at in
      rw (at, happen) (record { held = held; same = guest_write_other w.pool th memory idx free })
]

-- From a state in which a slot is marked in use exactly where one thread holds it, and no two threads hold
-- the same: while a thread holds a slot, whatever the other threads do and their guests write, in whatever
-- order, the thread goes on holding it and the slot and its memory stay as they are.
pub run-isolated :
    (w : World) (es : List Event) (t idx : ℕ)
    → IsExclusive w
    → Others t es
    → get_elem? w.threads t ≡ some (holding idx)
    → (get_elem? (run w es).threads t ≡ some (holding idx))
      × (get_elem? (run w es).pool.slots idx ≡ get_elem? w.pool.slots idx)
unfolding run
run-isolated w [] t idx v others held = (held, refl)
run-isolated w (e ∷ es) t idx v others held =
    let k = happen-Kept w e t idx v others.0 held in
    let (held_after, same) =
      run-isolated (happen w e) es t idx (happen-IsExclusive w e v) others.1 k.held in
    (held_after, same ∙ k.same)
