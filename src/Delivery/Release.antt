-- ===== src/Delivery/Release.antt =====
-- The store of a request's task, which vdp_wasm_fini or vdp_wasm_task_fini of src/vdp_wasm.c gives back.
use vmod_wasm.Base.{
  ℕ, ◌+◌, ◌≡◌, refl, ◌∙◌, ap, Bool, true, false, List, [], ◌∷◌, ◌++◌, Option, none, some,
  if◌then◌else◌, Bytes, Bool-cases, inl, inr,
}
use vmod_wasm.Delivery.{
  Action, Task, Timespec, Ledger, Request, BodyFn, run_body_fn, keep_body, offer_chunk,
  call_body_fn, pass_on, vdp_wasm_bytes, call_export, lifecycle, give_store, give_back, is_some,
  clean_context, count_call, vdp_wasm_init, vdp_wasm_fini, vdp_wasm_task_fini, vdp_wasm_offered,
  is_end,
}
use vmod_wasm.Delivery.Streams.{deliver}

-- What a call of the module never changes in a task: the pointers to its store and its slot of the pool.
abbrev pub Handles : Type 0
Handles = Bool × (Option ℕ × (Option ℕ × ℕ))

abbrev pub handles : {G : Type 0} → Task G → Handles
handles t = (t.engine, (t.store, (t.pooled, t.pool_idx)))

handles-keep_body :
    {G : Type 0} (set : Option (Option Bytes)) (t : Task G) → handles (keep_body set t) ≡ handles t
handles-keep_body none t = refl
handles-keep_body (some body) t = refl

pub handles-run_body_fn :
    {G : Type 0} (o : Option (BodyFn G)) (size : ℕ) (e : Bool) (t : Task G)
    → handles (run_body_fn o size e t) ≡ handles t
handles-run_body_fn none size e t = refl
handles-run_body_fn (some f) size e t = handles-keep_body _ _

handles-call_export :
    {G : Type 0} (o : Option (G → ℕ → G)) (t : Task G) → handles (call_export o t) ≡ handles t
handles-call_export none t = refl
handles-call_export (some f) t = refl

pub handles-lifecycle : {G : Type 0} (t : Task G) → handles (lifecycle t) ≡ handles t
unfolding lifecycle
handles-lifecycle t =
    handles-call_export t.exports.on_delete _
    ∙ (handles-call_export t.exports.on_done _ ∙ handles-call_export t.exports.on_log t)

module _ {G D R : Type 0} (next : Action → Option Bytes → D → D × R) where
  handles-pass_on :
      (act : Action) (chunk : Option Bytes) (t : Task G) (down : D)
      → handles (pass_on next act chunk t down).0 ≡ handles t
  handles-pass_on act chunk t down = elim (Bool-cases t.body_modified) [
    | inl e ↦ rw e refl
    | inr e ↦ rw e refl
  ]

  handles-vdp_wasm_bytes :
      (act : Action) (chunk : Option Bytes) (t : Task G) (down : D)
      → handles (vdp_wasm_bytes next act chunk t down).0 ≡ handles t
  unfolding vdp_wasm_bytes offer_chunk call_body_fn
  handles-vdp_wasm_bytes act chunk t down = elim (Bool-cases (vdp_wasm_offered act chunk)) [
    | inl h ↦ rw h (
        handles-pass_on act chunk (offer_chunk (is_end act) chunk t) down
        ∙ handles-run_body_fn t.exports.on_body _ _ _)
    | inr h ↦ rw h (handles-pass_on act chunk t down)
  ]

  pub handles-deliver :
      (chunks : List (Action × Option Bytes)) (t : Task G) (down : D)
      → handles (deliver next chunks t down).0 ≡ handles t
  unfolding deliver
  handles-deliver [] t down = refl
  handles-deliver ((act, chunk) ∷ rest) t down =
      handles-deliver rest _ _ ∙ handles-vdp_wasm_bytes act chunk t down

  -- The body of a response: the processor is pushed, gets the chunks and is closed.
  unfoldable pub serve : Timespec → List (Action × Option Bytes) → D → Request G → Request G
  serve now chunks down r =
      let pushed = (vdp_wasm_init r).0 in
      vdp_wasm_fini now (record pushed {
        task = elim pushed.task [ none ↦ none | some t ↦ some (deliver next chunks t down).0 ];
      })

  -- A request's response: its body, where the processor is pushed, and the end of the request.
  unfoldable pub respond :
      Bool → Timespec → List (Action × Option Bytes) → D → Request G → Request G
  respond pushed now chunks down r =
      vdp_wasm_task_fini (if pushed then serve now chunks down r else r)

-- The slots that have gone back to their pools, each with the index of the pool, the stores that have been
-- deleted, and how often a context has been cleaned up.
abbrev pub Counts : Type 0
Counts = List (ℕ × ℕ) × (List (Option ℕ) × ℕ)

abbrev pub counts : Ledger → Counts
counts l = (l.released, (l.deleted, l.cleaned))

-- What a task with these handles adds to it.
abbrev pub settled : Handles → Counts → Counts
settled (engine, (store, (some slot, pool_idx))) (released, (deleted, cleaned)) =
    (released ++ ((pool_idx, slot) ∷ []), (deleted, cleaned + 1))
settled (engine, (store, (none, pool_idx))) (released, (deleted, cleaned)) =
    (released, (deleted ++ (store ∷ []), cleaned + 1))

counts-give_store :
    (engine : Bool) (store slot : Option ℕ) (idx : ℕ) (l : Ledger)
    → counts (give_store slot idx store (clean_context l))
      ≡ settled (engine, (store, (slot, idx))) (counts l)
counts-give_store engine store (some p) idx l = refl
counts-give_store engine store none idx l = refl

counts-give_back :
    {G : Type 0} (t : Task G) (l : Ledger)
    → counts (give_back t (clean_context l)) ≡ settled (handles t) (counts l)
counts-give_back t l = counts-give_store t.engine t.store t.pooled t.pool_idx l

counts-count_call :
    {G : Type 0} (now : Timespec) (t : Task G) (l : Ledger) → counts (count_call now t l) ≡ counts l
counts-count_call now t l = elim (Bool-cases t.engine) [ inl e ↦ rw e refl | inr e ↦ rw e refl ]

module _ {G D R : Type 0} (next : Action → Option Bytes → D → D × R) where
  -- However a response goes, what the task holds is given back exactly once: its slot, where it has one of a
  -- pool, to the pool that it names, and its store by deletion where it has none. Nothing else is given back
  -- or deleted, its context is cleaned up exactly once, and the task is freed: whether the processor is pushed
  -- or not, whatever the chunks are and whatever the module does with them. The task has its store, and no
  -- processor points to it yet.
  pub respond_settles :
      (pushed : Bool) (now : Timespec) (chunks : List (Action × Option Bytes)) (down : D)
      (t : Task G) (l : Ledger)
      → is_some t.store ≡ true
      → let r =
          respond next pushed now chunks down
            (record { task = some t; priv = false; ledger = l }) in
        (r.task ≡ none) × (counts r.ledger ≡ settled (handles t) (counts l))
  unfolding respond serve vdp_wasm_init vdp_wasm_fini vdp_wasm_task_fini
  respond_settles false now chunks down t l h = (refl, rw h (counts-give_back t l))
  respond_settles true now chunks down t l h =
      let served = (deliver next chunks t down).0 in
      let done = record (lifecycle (record served { vrt_ctx = true })) { vrt_ctx = false } in
      (
        refl,
        counts-give_back done (count_call now done l)
            ∙ (ap (settled (handles done)) (counts-count_call now done l)
                ∙ ap (λ x. settled x (counts l))
                    (handles-lifecycle (record served { vrt_ctx = true })
                      ∙ handles-deliver next chunks t down)),
      )

fini_again :
    {G : Type 0} (now now' : Timespec) (task : Option (Task G)) (priv : Bool) (l : Ledger)
    → let once = vdp_wasm_fini now (record { task = task; priv = priv; ledger = l }) in
      vdp_wasm_fini now' once ≡ once
unfolding vdp_wasm_fini
fini_again now now' none false l = refl
fini_again now now' none true l = refl
fini_again now now' (some t) false l = refl
fini_again now now' (some t) true l = refl

-- A second end of the processor does nothing.
pub vdp_wasm_fini_twice :
    {G : Type 0} (now now' : Timespec) (r : Request G)
    → vdp_wasm_fini now' (vdp_wasm_fini now r) ≡ vdp_wasm_fini now r
vdp_wasm_fini_twice now now' r = fini_again now now' r.task r.priv r.ledger
