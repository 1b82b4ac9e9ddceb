-- ===== src/Http/Replies/History.antt =====
-- What the read loops of pw_proxy_http_call in src/proxy_wasm_http.c take from the socket: all that the socket
-- has given is in the buffer.
use mathlib.Core.List.{append_assoc, append-nil}
use vmod_wasm.Base.{
  ℕ, zero, suc, ◌-◌, ◌≡◌, ◌∙◌, ap, ◌||◌, [], ◌∷◌, ◌++◌, Option, none, some, ltb, ◌==◌, length,
  Bytes, Bool-cases, inl, inr,
}
use vmod_wasm.Http.Replies.{
  max_response, Head, Rest, seen_end, look_for_end, head_round, read_head, add_body, body_round,
  read_body,
}
use vmod_wasm.Http.Replies.Reads.{Leaves, follow-Leaves}

-- A relation of the buffer and the socket that goes on holding as the bytes of a read are added.
abbrev pub Follows : {S : Type 0} → (ℕ → S → Bytes × S) → (Bytes → S → Type 0) → Type 0
Follows {S} read_some Seen =
    (buf : Bytes) (n : ℕ) (s : S) → Seen buf s → Seen (buf ++ (read_some n s).0) (read_some n s).1

-- `seen` is all that a socket has ever given.
abbrev pub Records : {S : Type 0} → (ℕ → S → Bytes × S) → (S → Bytes) → Type 0
Records {S} read_some seen = (n : ℕ) (s : S) → seen (read_some n s).1 ≡ seen s ++ (read_some n s).0

pub Records-Follows :
    {S : Type 0} (read_some : ℕ → S → Bytes × S) (seen : S → Bytes) (base : Bytes)
    → Records read_some seen
    → Follows read_some (λ buf s. seen s ≡ base ++ buf)
Records-Follows read_some seen base r buf n s h =
    r n s ∙ (ap (λ b. b ++ (read_some n s).0) h ∙ append_assoc base buf (read_some n s).0)

module _ {S : Type 0} (read_some : ℕ → S → Bytes × S) (Seen : Bytes → S → Type 0)
    (follows : Follows read_some Seen) where
  abbrev HeadSeen : Head S → Type 0
  HeadSeen h = Seen h.received h.socket

  abbrev RestSeen : Rest S → Type 0
  RestSeen r = Seen r.received r.socket

  seen_end-Seen :
      (o : Option ℕ) (buf : Bytes) (s : S) → Seen buf s → Leaves HeadSeen Seen (seen_end o buf s)
  seen_end-Seen none buf s h = h
  seen_end-Seen (some n) buf s h = h

  look_for_end-Seen :
      (buf : Bytes) (got : Bytes × S)
      → Seen (buf ++ got.0) got.1
      → Leaves HeadSeen Seen (look_for_end buf got)
  look_for_end-Seen buf ([], s) h = rw (append-nil buf) at h
  look_for_end-Seen buf (c ∷ cs, s) h = seen_end-Seen _ (buf ++ (c ∷ cs)) s h

  head_round-Seen :
      (buf : Bytes) (s : S) → Seen buf s → Leaves HeadSeen Seen (head_round read_some buf s)
  head_round-Seen buf s h = elim (Bool-cases (ltb (length buf) max_response)) [
    | inl e ↦ rw e (look_for_end-Seen buf _ (follows buf _ s h))
    | inr e ↦ rw e h
  ]

  -- After the first loop.
  pub read_head-Seen :
      (fuel : ℕ) (buf : Bytes) (s : S)
      → Seen buf s
      → Seen (read_head read_some fuel buf s).received (read_head read_some fuel buf s).socket
  unfolding read_head
  read_head-Seen zero buf s h = h
  read_head-Seen (suc fuel) buf s h =
      follow-Leaves HeadSeen Seen (head_round read_some buf s)
        (λ buf' s'. read_head read_some fuel buf' s') (head_round-Seen buf s h)
        λ buf' s' h'. read_head-Seen fuel buf' s' h'

  add_body-Seen :
      (need : ℕ) (buf : Bytes) (got : Bytes × S)
      → Seen (buf ++ got.0) got.1
      → Leaves RestSeen Seen (add_body need buf got)
  add_body-Seen need buf ([], s) h = rw (append-nil buf) at h
  add_body-Seen need buf (c ∷ cs, s) h = h

  body_round-Seen :
      (need : ℕ) (buf : Bytes) (s : S)
      → Seen buf s
      → Leaves RestSeen Seen (body_round read_some need buf s)
  body_round-Seen need buf s h =
      let room = max_response - length buf in
      elim (Bool-cases (need == 0 || room == 0)) [
        | inl e ↦ rw e h
        | inr e ↦ rw e (add_body-Seen need buf _ (follows buf _ s h))
      ]

  -- After the second loop.
  pub read_body-Seen :
      (fuel need : ℕ) (buf : Bytes) (s : S)
      → Seen buf s
      → Seen
          (read_body read_some fuel need buf s).received
          (read_body read_some fuel need buf s).socket
  unfolding read_body
  read_body-Seen zero need buf s h = h
  read_body-Seen (suc fuel) need buf s h =
      follow-Leaves RestSeen Seen (body_round read_some need buf s)
        (λ buf' s'. read_body read_some fuel (need - (length buf' - length buf)) buf' s')
        (body_round-Seen need buf s h)
        λ buf' s' h'. read_body-Seen fuel (need - (length buf' - length buf)) buf' s' h'
