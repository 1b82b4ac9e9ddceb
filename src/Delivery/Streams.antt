-- ===== src/Delivery/Streams.antt =====
-- What vdp_wasm_bytes of src/vdp_wasm.c does to a whole stream of chunks, against the machine that turns
-- each chunk into the one that the module makes of it.
use vmod_wasm.Base.{
  ℕ, ◌%◌, ◌^◌, ◌≡◌, refl, ap, Bool, true, false, List, [], ◌∷◌, Option, none, some, ltb, length,
  arith, Bytes,
}
use vmod_wasm.Delivery.{
  Action, vdp_null, vdp_flush, vdp_end, is_end, Exports, Task, size_of, vdp_wasm_bytes, offer_chunk,
  call_body_fn, pass_on, keep_body, BodyFn, run_body_fn,
}

-- A task between two chunks: it points to no chunk, to no context of a call and to no changed body.
abbrev pub at_rest : {G : Type 0} → Task G → G → Task G
at_rest t s = record t {
  state = s;
  vrt_ctx = false;
  response_body = none;
  body_modified = false;
  modified_body = none;
}

abbrev pub chosen : Option Bytes → Option (Option Bytes) → Option Bytes
chosen chunk none = chunk
chosen chunk (some body) = body

-- What a module's function makes of a chunk, given the size, the end of the stream and the body that it is
-- shown: what it sets, or the chunk as it is.
abbrev pub ask :
    {G : Type 0}
    → Option (BodyFn G)
    → ℕ
    → ℕ
    → Bool
    → Option Bytes
    → Option Bytes
    → G
    → G × Option Bytes
ask none id size end_of_stream shown chunk s = (s, chunk)
ask (some f) id size end_of_stream shown chunk s =
    let (s', set) = f s id (size % 2 ^ 32) end_of_stream shown in (s', chosen chunk set)

-- The stream ends with this action.
abbrev pub ended : Action → Bool
ended vdp_null = false
ended vdp_flush = false
ended vdp_end = true

abbrev pub bytes_in : Option Bytes → ℕ
bytes_in none = 0
bytes_in (some b) = length b

-- One step of the machine. A module is asked about each chunk with data and shown the data; it is asked about
-- the end of the stream without data too, with size 0 and shown no body; any other chunk without data stays as
-- it is.
pub filter_step : {G : Type 0} → Exports G → ℕ → Action → Option Bytes → G → G × Option Bytes
filter_step e id act (some (c ∷ cs)) s =
    ask e.on_body id (length (c ∷ cs)) (ended act) (some (c ∷ cs)) (some (c ∷ cs)) s
filter_step e id vdp_null (some []) s = (s, some [])
filter_step e id vdp_flush (some []) s = (s, some [])
filter_step e id vdp_end (some []) s = ask e.on_body id 0 true none (some []) s
filter_step e id vdp_null none s = (s, none)
filter_step e id vdp_flush none s = (s, none)
filter_step e id vdp_end none s = ask e.on_body id 0 true none none s

pub filter_step-ask :
    {G : Type 0} (e : Exports G) (id : ℕ) (act : Action) (chunk : Option Bytes) (s : G)
    → ltb 0 (size_of chunk) ≡ true
    → filter_step e id act chunk s ≡ ask e.on_body id (bytes_in chunk) (ended act) chunk chunk s
unfolding filter_step
filter_step-ask e id act none s h = absurd (cc h)
filter_step-ask e id act (some []) s h = absurd (cc h)
filter_step-ask e id act (some (c ∷ cs)) s h = refl

pub is_end-ended : (act : Action) → is_end act ≡ ended act
is_end-ended vdp_null = refl
is_end-ended vdp_flush = refl
is_end-ended vdp_end = refl

pub size_of-bytes_in : (chunk : Option Bytes) → size_of chunk ≡ bytes_in chunk
size_of-bytes_in none = refl
size_of-bytes_in (some b) = refl

-- The machine run on a stream.
pub transduce :
    {G : Type 0}
    → Exports G
    → ℕ
    → List (Action × Option Bytes)
    → G
    → G × List (Action × Option Bytes)
transduce e id [] s = (s, [])
transduce e id ((act, chunk) ∷ rest) s =
    let (s', out) = filter_step e id act chunk s in
    let (s'', outs) = transduce e id rest s' in (s'', (act, out) ∷ outs)

-- The next processor called on each chunk of a stream.
pub feed :
    {D R : Type 0} → (Action → Option Bytes → D → D × R) → List (Action × Option Bytes) → D → D
feed next [] down = down
feed next ((act, chunk) ∷ rest) down = feed next rest (next act chunk down).0

module _ {G D R : Type 0} (next : Action → Option Bytes → D → D × R) where
  -- The processor called on each chunk of a stream.
  unfoldable pub deliver : List (Action × Option Bytes) → Task G → D → Task G × D
  deliver [] t down = (t, down)
  deliver ((act, chunk) ∷ rest) t down =
      let (t', (down', _)) = vdp_wasm_bytes next act chunk t down in deliver rest t' down'

  pass_on-keep_body :
      (set : Option (Option Bytes)) (act : Action) (chunk : Option Bytes) (t : Task G) (s : G)
      (down : D) (shown : Option Bytes)
      → pass_on next act chunk
          (record (keep_body set (record (at_rest t s) { vrt_ctx = true; response_body = shown })) {
            response_body = none;
            vrt_ctx = false;
          })
          down
        ≡ (at_rest t s, next act (chosen chunk set) down)
  pass_on-keep_body none act chunk t s down shown = refl
  pass_on-keep_body (some body) act chunk t s down shown = refl

  pass_on-run_body_fn :
      (o : Option (BodyFn G)) (size : ℕ) (e : Bool) (shown : Option Bytes) (act : Action)
      (chunk : Option Bytes) (t : Task G) (s : G) (down : D)
      → pass_on next act chunk
          (record (run_body_fn o size e
            (record (at_rest t s) { vrt_ctx = true; response_body = shown })) {
              response_body = none;
              vrt_ctx = false;
            })
          down
        ≡ (let (s', out) = ask o t.stream_context_id size e shown chunk s in
            (at_rest t s', next act out down))
  pass_on-run_body_fn none size e shown act chunk t s down = refl
  pass_on-run_body_fn (some f) size e shown act chunk t s down =
      pass_on-keep_body _ act chunk t _ down _

  -- On a task at rest, one call of the processor is one step of the machine: it leaves the task at rest
  -- with the module's new state, and passes on what the machine makes of the chunk.
  pub vdp_wasm_bytes_lem :
      (act : Action) (chunk : Option Bytes) (t : Task G) (s : G) (down : D)
      → vdp_wasm_bytes next act chunk (at_rest t s) down ≡ (
          let (s', out) = filter_step t.exports t.stream_context_id act chunk s in
          (at_rest t s', next act out down))
  unfolding vdp_wasm_bytes filter_step offer_chunk call_body_fn
  vdp_wasm_bytes_lem vdp_null none t s down = refl
  vdp_wasm_bytes_lem vdp_flush none t s down = refl
  vdp_wasm_bytes_lem vdp_end none t s down =
      pass_on-run_body_fn t.exports.on_body 0 true none vdp_end none t s down
  vdp_wasm_bytes_lem vdp_null (some []) t s down = refl
  vdp_wasm_bytes_lem vdp_flush (some []) t s down = refl
  vdp_wasm_bytes_lem vdp_end (some []) t s down =
      pass_on-run_body_fn t.exports.on_body 0 true none vdp_end (some []) t s down
  vdp_wasm_bytes_lem act (some (c ∷ cs)) t s down =
      let h : ltb 0 (length (c ∷ cs)) ≡ true = ground arith in
      rw (h, is_end-ended act)
        (pass_on-run_body_fn t.exports.on_body (length (c ∷ cs)) (ended act) (some (c ∷ cs)) act
          (some (c ∷ cs)) t s down)

  -- On a task at rest, the processor delivers a whole stream as the machine of `filter_step` does: the next
  -- processor gets
  -- the machine's output, chunk by chunk and with each chunk's action, and the task is at rest again.
  pub deliver-transduce :
      (chunks : List (Action × Option Bytes)) (t : Task G) (s : G) (down : D)
      → deliver chunks (at_rest t s) down ≡ (
          let (s', outs) = transduce t.exports t.stream_context_id chunks s in
          (at_rest t s', feed next outs down))
  unfolding deliver transduce feed
  deliver-transduce [] t s down = refl
  deliver-transduce ((act, chunk) ∷ rest) t s down =
      rw (vdp_wasm_bytes_lem act chunk t s down) (deliver-transduce rest t _ _)

-- A module that sets no body, whatever it reads, or that exports no body function.
abbrev pub Silent : {G : Type 0} → Option (BodyFn G) → Type 0
Silent none = Unit
Silent {G} (some f) =
    (s : G) (id size : ℕ) (end_of_stream : Bool) (body : Option Bytes)
    → (f s id size end_of_stream body).1 ≡ none

ask-Silent :
    {G : Type 0} (o : Option (BodyFn G)) (id size : ℕ) (e : Bool) (shown chunk : Option Bytes)
    (s : G)
    → Silent o
    → (ask o id size e shown chunk s).1 ≡ chunk
ask-Silent none id size e shown chunk s h = refl
ask-Silent (some f) id size e shown chunk s h = ap (chosen chunk) (h s _ _ _ _)

filter_step-Silent :
    {G : Type 0} (e : Exports G) (id : ℕ) (act : Action) (chunk : Option Bytes) (s : G)
    → Silent e.on_body
    → (filter_step e id act chunk s).1 ≡ chunk
unfolding filter_step
filter_step-Silent e id act (some (c ∷ cs)) s h = ask-Silent e.on_body id _ _ _ _ s h
filter_step-Silent e id vdp_null (some []) s h = refl
filter_step-Silent e id vdp_flush (some []) s h = refl
filter_step-Silent e id vdp_end (some []) s h = ask-Silent e.on_body id 0 true none (some []) s h
filter_step-Silent e id vdp_null none s h = refl
filter_step-Silent e id vdp_flush none s h = refl
filter_step-Silent e id vdp_end none s h = ask-Silent e.on_body id 0 true none none s h

transduce-Silent :
    {G : Type 0} (e : Exports G) (id : ℕ) (chunks : List (Action × Option Bytes)) (s : G)
    → Silent e.on_body
    → (transduce e id chunks s).1 ≡ chunks
unfolding transduce
transduce-Silent e id [] s h = refl
transduce-Silent e id ((act, chunk) ∷ rest) s h =
    rw (filter_step-Silent e id act chunk s h, transduce-Silent e id rest _ h) refl

-- A module that sets no body leaves every stream as it is: on a task at rest, the next processor gets the
-- chunks that the processor got.
pub deliver-Silent :
    {G D R : Type 0} (next : Action → Option Bytes → D → D × R) (t : Task G) (s : G)
    (chunks : List (Action × Option Bytes)) (down : D)
    → Silent t.exports.on_body
    → (deliver next chunks (at_rest t s) down).1 ≡ feed next chunks down
deliver-Silent next t s chunks down h =
    rw (deliver-transduce next chunks t s down, transduce-Silent t.exports _ chunks s h) refl
