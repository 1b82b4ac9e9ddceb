-- ===== src/Proxy/Bodies/Splices.antt =====
-- What a change of a body leaves, as a splice of texts.
use vmod_wasm.Base.{
  ℕ, zero, suc, ◌+◌, ◌-◌, ◌^◌, ◌≡◌, ◌≤◌, ◌<◌, refl, sym, ◌∙◌, inl, inr, arith, true, false, ◌||◌,
  [], ◌∷◌, ◌++◌, Option, none, some, Option-cases, ltb, ◌==◌, if◌then◌else◌, Bool-cases, length,
  take, drop, take_all, Bytes,
}
use vmod_wasm.Headers.Calls.{proxy_ok}
use vmod_wasm.Http.Numbers.{size_max}
use vmod_wasm.Proxy.Bodies.{
  BufferType, http_request_body, http_response_body, downstream_data, upstream_data, http_call_body,
  grpc_recv_msg, vm_configuration, plugin_configuration, foreign_func_args, unknown_buffer,
  bad_type, absent, BodyCtx, join_parts, replace_bytes, current_body, buffer, buffer_of, text_of,
  value_arg, put_body, set_buffer_to, set_buffer_bytes,
}

drop_all : (n : ℕ) (xs : Bytes) → length xs ≤ n → drop n xs ≡ []
drop_all zero [] h = refl
drop_all zero (x ∷ xs) h = absurd (omega arith)
drop_all (suc n) [] h = refl
drop_all (suc n) (x ∷ xs) h = drop_all n xs (omega arith)

empty_of_length : (xs : Bytes) → length xs ≡ 0 → xs ≡ []
empty_of_length [] h = refl
empty_of_length (x ∷ xs) h = absurd (omega arith)

-- `len` bytes from `start` on are replaced, as far as they are there.
abbrev pub splice : ℕ → ℕ → Bytes → Bytes → Bytes
splice start len value base = take start base ++ (value ++ drop (start + len) base)

-- What a replace makes of it: the buffer with the text.
abbrev pub Holds : Bytes → Option (Option Bytes) → Type 0
Holds text none = ⊥
Holds text (some o) = text_of o ≡ text

join_parts-Holds :
    (base value : Bytes) (p off : ℕ)
    → p ≤ length base
    → length base + length value < 2 ^ 64
    → p ≤ off
    → Holds (take p base ++ (value ++ drop off base)) (join_parts true base p off value)
join_parts-Holds base value p off inside small order =
    let a : (ltb (size_max - p) (length value)
          || ltb (size_max - (length base - off)) (p + length value))
        ≡ false =
      ground arith in
    elim (Bool-cases (p + length value + (length base - off) == 0)) [
      | inl empty ↦
          let no_prefix : p ≡ 0 = ground arith in
          let no_value = empty_of_length value (ground arith) in
          let no_suffix = drop_all off base (ground arith) in
          rw (a, empty, join_parts) (sym (rw (no_prefix, no_value, no_suffix) refl))
      | inr full ↦ rw (a, full, join_parts) refl
    ]

same-Holds : (a b : Bytes) (o : Option (Option Bytes)) → a ≡ b → Holds a o → Holds b o
same-Holds a b o e h = rw⁻¹ e h

-- Both splices take all of the base up to its end.
splice_past :
    (base value : Bytes) (p q m n : ℕ)
    → take p base ≡ take q base
    → length base ≤ m
    → length base ≤ n
    → take p base ++ (value ++ drop m base) ≡ take q base ++ (value ++ drop n base)
splice_past base value p q m n e hm hn = rw (e, drop_all m base hm, drop_all n base hn) refl

replace_bytes-Holds :
    (base value : Bytes) (start len : ℕ)
    → length base + length value < 2 ^ 64
    → Holds (splice start len value base) (replace_bytes true base start len value)
unfolding replace_bytes
replace_bytes-Holds base value start len small = elim (Bool-cases (ltb (length base) start)) [
  | inl behind ↦
      let whole : take (length base) base ≡ take start base =
        take_all (length base) base (omega arith) ∙ sym (take_all start base (ground arith)) in
      let removed =
        if ltb (length base - length base) len then length base - length base else len in
      rw (behind, replace_bytes)
        (same-Holds _ _ (join_parts true base (length base) (length base + removed) value)
          (splice_past base value (length base) start (length base + removed) (start + len) whole
            (omega arith) (ground arith))
          (join_parts-Holds base value (length base) (length base + removed) (omega arith) small
            (omega arith)))
  | inr inside ↦ elim (Bool-cases (ltb (length base - start) len)) [
    | inl to_end ↦
        let off = start + (length base - start) in
        rw (inside, to_end, replace_bytes)
          (same-Holds _ _ (join_parts true base start off value)
            (splice_past base value start start off (start + len) refl (omega arith) (ground arith))
            (join_parts-Holds base value start off (ground arith) small (omega arith)))
    | inr short ↦
        rw (inside, short, replace_bytes)
          (join_parts-Holds base value start (start + len) (ground arith) small (omega arith))
  ]
]

-- The two buffers that a guest can change.
abbrev pub IsBody : BufferType → Type 0
IsBody http_request_body = Unit {0}
IsBody http_response_body = Unit {0}
IsBody _ = ⊥

abbrev pub body_text : BodyCtx → BufferType → Bytes
body_text ctx t = elim (buffer_of ctx t) [
  | buffer content ↦ text_of content
  | bad_type ↦ []
  | absent ↦ []
]

put_body-text :
    (ctx : BodyCtx) (t : BufferType) (text : Bytes) (o : Option (Option Bytes))
    → IsBody t
    → Holds text o
    → ((put_body ctx o).1 ≡ proxy_ok) × (body_text (put_body ctx o).0 t ≡ text)
put_body-text ctx http_request_body text none body h = absurd h
put_body-text ctx http_response_body text none body h = absurd h
put_body-text ctx http_request_body text (some o) body h = (refl, h)
put_body-text ctx http_response_body text (some o) body h = (refl, h)
put_body-text ctx downstream_data text o body h = absurd body
put_body-text ctx upstream_data text o body h = absurd body
put_body-text ctx http_call_body text o body h = absurd body
put_body-text ctx grpc_recv_msg text o body h = absurd body
put_body-text ctx vm_configuration text o body h = absurd body
put_body-text ctx plugin_configuration text o body h = absurd body
put_body-text ctx foreign_func_args text o body h = absurd body
put_body-text ctx unknown_buffer text o body h = absurd body

set_buffer_to-text :
    (ctx : BodyCtx) (t : BufferType) (start size : ℕ) (value : Bytes)
    → IsBody t
    → length (body_text ctx t) + length value < 2 ^ 64
    → ((set_buffer_to true ctx t start size value).1 ≡ proxy_ok)
      × (body_text (set_buffer_to true ctx t start size value).0 t
          ≡ splice start size value (body_text ctx t))
set_buffer_to-text ctx http_request_body start size value body small =
    put_body-text ctx http_request_body _ _ body (replace_bytes-Holds _ value start size small)
set_buffer_to-text ctx http_response_body start size value body small =
    put_body-text ctx http_response_body _ _ body (replace_bytes-Holds _ value start size small)
set_buffer_to-text ctx downstream_data start size value body small = absurd body
set_buffer_to-text ctx upstream_data start size value body small = absurd body
set_buffer_to-text ctx http_call_body start size value body small = absurd body
set_buffer_to-text ctx grpc_recv_msg start size value body small = absurd body
set_buffer_to-text ctx vm_configuration start size value body small = absurd body
set_buffer_to-text ctx plugin_configuration start size value body small = absurd body
set_buffer_to-text ctx foreign_func_args start size value body small = absurd body
set_buffer_to-text ctx unknown_buffer start size value body small = absurd body

-- A guest that changes a request or response body with bytes of its memory is answered PROXY_OK, if the
-- allocation succeeds and the sizes stay below 2^64, and the body is then the old one with `size` bytes
-- from `start` on replaced by the given ones, where a start behind the end stands for the end and no
-- more is replaced than there is.
pub set_buffer_bytes-splice :
    (ctx : BodyCtx) (t : BufferType) (start size data_ptr data_size : ℕ) (value : Bytes)
    → IsBody t
    → value_arg ctx.guest data_ptr data_size ≡ some value
    → length (body_text ctx t) + length value < 2 ^ 64
    → ((set_buffer_bytes true ctx t start size data_ptr data_size).1 ≡ proxy_ok)
      × (body_text (set_buffer_bytes true ctx t start size data_ptr data_size).0 t
          ≡ splice start size value (body_text ctx t))
unfolding set_buffer_bytes
set_buffer_bytes-splice ctx t start size data_ptr data_size value body given small =
    rw (given, set_buffer_bytes) (set_buffer_to-text ctx t start size value body small)

put_body_shared :
    (ctx : BodyCtx) (o : Option (Option Bytes))
    → (put_body ctx o).1 ≡ proxy_ok
    → body_text (put_body ctx o).0 http_response_body
      ≡ body_text (put_body ctx o).0 http_request_body
put_body_shared ctx none ok = absurd (ground arith)
put_body_shared ctx (some o) ok = refl

-- After a change of the request body, whatever it is, the response body reads as the changed request
-- body: the two share one changed body.
pub set_buffer_bytes-shared :
    (ctx : BodyCtx) (start size data_ptr data_size : ℕ)
    → (set_buffer_bytes true ctx http_request_body start size data_ptr data_size).1 ≡ proxy_ok
    → body_text
        (set_buffer_bytes true ctx http_request_body start size data_ptr data_size).0
        http_response_body
      ≡ body_text
          (set_buffer_bytes true ctx http_request_body start size data_ptr data_size).0
          http_request_body
unfolding set_buffer_bytes
set_buffer_bytes-shared ctx start size data_ptr data_size ok =
    elim (Option-cases (value_arg ctx.guest data_ptr data_size)) [
      | inl bad ↦ let e = rw (bad, set_buffer_bytes) at ok in absurd (ground arith)
      | inr (value, e) ↦
          rw (e, set_buffer_bytes)
            (put_body_shared ctx
              (replace_bytes true (text_of (current_body ctx ctx.request_body)) start size value)
              (rw (e, set_buffer_bytes) at ok))
    ]
