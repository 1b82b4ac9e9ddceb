-- ===== src/Delivery/Chains/Composition.antt =====
-- The chain of src/vdp_wasm.c as the composition of its filters, in the order of the array.
use vmod_wasm.Base.{
  ℕ, ◌≡◌, refl, ◌∙◌, ap, Bool, true, false, ◌&&◌, List, [], ◌∷◌, ◌++◌, Option, none, some, ltb,
  length, arith, if◌then◌else◌, Bytes, Bool-cases, inl, inr,
}
use vmod_wasm.Delivery.{
  Action, Task, BodyFn, size_of, is_some, run_body_fn, keep_body, vdp_wasm_bytes,
}
use vmod_wasm.Delivery.Streams.{
  at_rest, chosen, ask, ended, bytes_in, is_end-ended, size_of-bytes_in, filter_step-ask,
  vdp_wasm_bytes_lem,
}
use vmod_wasm.Delivery.Chains.{
  filter_chunk, filter_chunks, call_filter, vdp_wasm_chain_bytes, next_chunk,
}

-- The function that a task brings to the chain, if it has a store and a body function.
abbrev pub filter_of : {G : Type 0} → Task G → Option (BodyFn G)
filter_of t = if is_some t.store && t.phase_body_fn then t.exports.on_body else none

-- A task between two chunks of a chain, which may still hold the body that it changed last.
abbrev pub idle : {G : Type 0} → Task G → G → Option Bytes → Task G
idle t s kept = record t {
  state = s;
  response_body = none;
  body_modified = false;
  modified_body = kept;
}

-- All that a chain's task shows to the next call.
abbrev pub Idle : {G : Type 0} → Task G → G → Task G → Type 0
Idle t s t' = (kept : Option Bytes) × (t' ≡ idle t s kept)

Idle-keep_body :
    {G : Type 0} (set : Option (Option Bytes)) (t : Task G) (s : G)
    (kept current shown : Option Bytes)
    → let ran = keep_body set (record (idle t s kept) { response_body = shown }) in
      Idle t s (record ran { response_body = none; body_modified = false })
      × (next_chunk ran current ≡ chosen current set)
Idle-keep_body none t s kept current shown = ((kept, refl), refl)
Idle-keep_body (some body) t s kept current shown = ((body, refl), refl)

Idle-run_body_fn :
    {G : Type 0} (o : Option (BodyFn G)) (size : ℕ) (e : Bool) (t : Task G) (s : G)
    (kept current : Option Bytes)
    → let ran = run_body_fn o size e (record (idle t s kept) { response_body = current }) in
      let (s', out) = ask o t.stream_context_id size e current current s in
      Idle t s' (record ran { response_body = none; body_modified = false })
      × (next_chunk ran current ≡ out)
Idle-run_body_fn none size e t s kept current = ((kept, refl), refl)
Idle-run_body_fn (some f) size e t s kept current = Idle-keep_body _ t _ kept current current

-- What a filter makes of the current chunk: it is shown all of it.
abbrev pub apply_filter :
    {G : Type 0} → Option (BodyFn G) → ℕ → Action → G → Option Bytes → G × Option Bytes
apply_filter o id act s current = ask o id (bytes_in current) (ended act) current current s

Idle-call_filter :
    {G : Type 0} (o : Option (BodyFn G)) (act : Action) (t : Task G) (s : G)
    (kept current : Option Bytes)
    → let (t', out) = call_filter o act (idle t s kept) current in
      let (s', out') = apply_filter o t.stream_context_id act s current in
      Idle t s' t' × (out ≡ out')
Idle-call_filter none act t s kept current = ((kept, refl), refl)
Idle-call_filter (some f) act t s kept current =
    rw (size_of-bytes_in current, is_end-ended act)
      (Idle-run_body_fn (some f) (bytes_in current) (ended act) t s kept current)

-- One task of the loop, found idle, is left idle by its filter, which makes the next chunk.
pub filter_chunk-Idle :
    {G : Type 0} (act : Action) (t : Task G) (s : G) (kept current : Option Bytes)
    → let (t', out) = filter_chunk act (idle t s kept) current in
      let (s', out') = apply_filter (filter_of t) t.stream_context_id act s current in
      Idle t s' t' × (out ≡ out')
unfolding filter_chunk
filter_chunk-Idle act t s kept current = elim (Bool-cases (is_some t.store && t.phase_body_fn)) [
  | inl h ↦ rw h (Idle-call_filter t.exports.on_body act t s kept current)
  | inr h ↦ rw h ((kept, refl), refl)
]

-- The filters of a chain run one after the other, each on what the one before it made.
pub compose :
    {G : Type 0} → Action → List (Task G × G) → Option Bytes → List (Task G × G) × Option Bytes
compose act [] current = ([], current)
compose act ((t, s) ∷ ts) current =
    let (s', mid) = apply_filter (filter_of t) t.stream_context_id act s current in
    let (ts', out) = compose act ts mid in ((t, s') ∷ ts', out)

-- The tasks of a chain, all idle, with their modules' states.
pub data AllIdle {G : Type 0} : List (Task G × G) → List (Task G) → Type 0 where
  all_idle_nil : AllIdle [] []
  all_idle_cons :
      {t : Task G} {s : G} {kept : Option Bytes} {ts : List (Task G × G)} {us : List (Task G)}
      → AllIdle ts us
      → AllIdle ((t, s) ∷ ts) (idle t s kept ∷ us)

-- The loop over tasks that are all idle runs their filters one after the other, in the order of the array and
-- each on what the one before it made, and leaves them all idle with their modules' new states.
pub filter_chunks-compose :
    {G : Type 0} (act : Action) {ts : List (Task G × G)} {us : List (Task G)}
    (current : Option Bytes)
    → AllIdle ts us
    → let (us', out) = filter_chunks act us current in
      let (ts', out') = compose act ts current in AllIdle ts' us' × (out ≡ out')
unfolding filter_chunks compose
filter_chunks-compose act current all_idle_nil = (all_idle_nil, refl)
filter_chunks-compose act current (all_idle_cons {t} {s} {kept} {ts} {us} h) =
    let ((kept', e), e') = filter_chunk-Idle act t s kept current in
    let rest = filter_chunks-compose act _ h in rw (e, e') (all_idle_cons rest.0, rest.1)

-- What a chain makes of a chunk: without data it stays as it is, and no filter is asked.
abbrev pub run_chain :
    {G : Type 0} → Action → List (Task G × G) → Option Bytes → List (Task G × G) × Option Bytes
run_chain act ts none = (ts, none)
run_chain act ts (some []) = (ts, some [])
run_chain act ts (some (c ∷ cs)) = compose act ts (some (c ∷ cs))

-- A chain whose tasks are all idle leaves them all idle and calls the next processor with the chunk's action:
-- on a chunk with data, its filters run one after the other, in the order of the array and each on what the
-- one before it made, and the next processor gets what the last one made; on NULL or a chunk of no bytes, no
-- filter runs, whatever the action, and the next processor gets the chunk as it is.
pub vdp_wasm_chain_bytes-run_chain :
    {G D R : Type 0} (next : Action → Option Bytes → D → D × R) (act : Action)
    {ts : List (Task G × G)} {us : List (Task G)} (chunk : Option Bytes) (down : D)
    → AllIdle ts us
    → AllIdle (run_chain act ts chunk).0 (vdp_wasm_chain_bytes next act chunk us down).0
      × ((vdp_wasm_chain_bytes next act chunk us down).1 ≡ next act (run_chain act ts chunk).1 down)
unfolding vdp_wasm_chain_bytes
vdp_wasm_chain_bytes-run_chain next act none down h = (h, refl)
vdp_wasm_chain_bytes-run_chain next act (some []) down h = (h, refl)
vdp_wasm_chain_bytes-run_chain next act (some (c ∷ cs)) down h =
    let data_there : ltb 0 (length (c ∷ cs)) ≡ true = ground arith in
    let (idle_after, made) = filter_chunks-compose act (some (c ∷ cs)) h in
    rw data_there (idle_after, ap (λ out. next act out down) made)

-- A chain made of two runs its second on what its first makes of the chunk.
pub filter_chunks-append :
    {G : Type 0} (act : Action) (ts us : List (Task G)) (current : Option Bytes)
    → filter_chunks act (ts ++ us) current ≡ (
        let (ts', mid) = filter_chunks act ts current in
        let (us', out) = filter_chunks act us mid in (ts' ++ us', out))
unfolding filter_chunks
filter_chunks-append act [] us current = refl
filter_chunks-append act (t ∷ ts) us current = rw (filter_chunks-append act ts us _) refl

filter_of-enabled :
    {G : Type 0} (t : Task G)
    → is_some t.store ≡ true
    → t.phase_body_fn ≡ true
    → filter_of t ≡ t.exports.on_body
filter_of-enabled t hs hf =
    ap (λ b. if b && t.phase_body_fn then t.exports.on_body else none) hs
    ∙ ap (λ b. if b then t.exports.on_body else none) hf

filter_chunk-alone :
    {G : Type 0} (act : Action) (chunk : Option Bytes) (t : Task G) (s : G)
    → is_some t.store ≡ true
    → t.phase_body_fn ≡ true
    → (filter_chunk act (at_rest t s) chunk).1
      ≡ (apply_filter t.exports.on_body t.stream_context_id act s chunk).1
filter_chunk-alone act chunk t s hs hf =
    (filter_chunk-Idle act (record t { vrt_ctx = false }) s none chunk).1
    ∙ ap (λ o. (apply_filter o t.stream_context_id act s chunk).1) (filter_of-enabled t hs hf)

-- On a chunk with data, a chain of one filter passes on what the processor of that module alone passes on.
-- Both tasks are at rest, with a store and a body function.
pub vdp_wasm_chain_bytes-single :
    {G D R : Type 0} (next : Action → Option Bytes → D → D × R) (act : Action)
    (chunk : Option Bytes) (t : Task G) (s : G) (down : D)
    → ltb 0 (size_of chunk) ≡ true
    → is_some t.store ≡ true
    → t.phase_body_fn ≡ true
    → (vdp_wasm_chain_bytes next act chunk (at_rest t s ∷ []) down).1
      ≡ (vdp_wasm_bytes next act chunk (at_rest t s) down).1
unfolding vdp_wasm_chain_bytes filter_chunks
vdp_wasm_chain_bytes-single next act chunk t s down h hs hf =
    rw (vdp_wasm_bytes_lem next act chunk t s down, filter_step-ask t.exports _ act chunk s h, h)
      (ap (λ out. next act out down) (filter_chunk-alone act chunk t s hs hf))
