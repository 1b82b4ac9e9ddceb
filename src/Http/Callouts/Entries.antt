-- ===== src/Http/Callouts/Entries.antt =====
-- The entries of responses that src/proxy_wasm_http.c keeps for a module: their bodies and their tokens.
use vmod_wasm.Base.{
  ℕ, suc, ◌+◌, ◌^◌, ◌≤◌, ◌<◌, ◌≡◌, refl, sym, ap, ◌∙◌, inl, inr, true, false, List, [], ◌∷◌, ◌++◌,
  Option, none, some, ◌==◌, if◌then◌else◌, length, take, drop, length-append, Bytes, Bool-cases,
  arith,
}
use vmod_wasm.Memory.{Guest, returned, failed, write_u32}
use vmod_wasm.Http.Replies.{header_end}
use vmod_wasm.Http.Replies.Ends.{end_from_cases, append-take-drop, length-take, header_end_bounds}
use vmod_wasm.Http.Callouts.{
  CallStatus, call_ok, call_internal, CallEntry, CallCtx, blank_line_at, entry_from, entry_of,
  has_entry, insert_entry, remove_entry, next_token, keep_reply,
}

-- The scan of the whole buffer finds the blank line that strstr has found.
pub blank_line_at-header_end :
    (b : Bytes) {n : ℕ} → header_end b ≡ some n → (k : ℕ) × (n ≡ k + 4) × (blank_line_at b ≡ some k)
unfolding header_end blank_line_at
blank_line_at-header_end [] e = cc e
blank_line_at-header_end (c ∷ cs) e = elim (end_from_cases _ _ _ e) [
  | inl (s, k) ↦ (0, k, rw s refl)
  | inr (m, s, z, e', k) ↦
      let (j, m', found) = blank_line_at-header_end cs e' in
      (suc j, omega (arith, k, m'), rw (s, found) refl)
]

body_at :
    (token : ℕ) (raw : Bytes) (k : ℕ)
    → blank_line_at raw ≡ some k
    → (entry_of token raw).body ≡ some (drop (k + 4) raw)
unfolding entry_of
body_at token raw k e = ap (λ o. (entry_from token raw o).body) e

-- The body that is kept for the module is what stands behind the headers: of a response with headers up to
-- some offset and some number of bytes behind them, the body has exactly that many bytes, and with the
-- headers before it, it is the response.
pub entry_of-header_end :
    (token : ℕ) (raw : Bytes) (n m : ℕ)
    → header_end raw ≡ some n
    → length raw ≡ n + m
    → (body : Bytes) × ((entry_of token raw).body ≡ some body)
      × (length body ≡ m)
      × (take n raw ++ body ≡ raw)
entry_of-header_end token raw n m e l =
    let (k, k4, found) = blank_line_at-header_end raw e in
    let whole = append-take-drop n raw in
    let fits = (header_end_bounds raw e).1 in
    (
      drop n raw,
      body_at token raw k found ∙ ap (λ i. some (drop i raw)) (sym k4),
      omega (
        arith,
        ap length whole,
        length-append (take n raw) (drop n raw),
        length-take n raw fits,
        l,
      ),
      whole,
    )

-- The entry with a token.
abbrev pub find_entry : ℕ → List CallEntry → Option CallEntry
find_entry token [] = none
find_entry token (e ∷ es) = if token == e.token_id then some e else find_entry token es

-- No token is above a number.
abbrev pub TokensBelow : ℕ → List CallEntry → Type 0
TokensBelow k [] = Unit
TokensBelow k (e ∷ es) = (e.token_id ≤ k) × TokensBelow k es

has_entry_fresh : (k : ℕ) (es : List CallEntry) → TokensBelow k es → has_entry (k + 1) es ≡ false
has_entry_fresh k [] h = refl
has_entry_fresh k (e ∷ es) h = elim (Bool-cases (k + 1 == e.token_id)) [
  | inl z ↦ absurd (ground (arith, h.0))
  | inr z ↦ rw z (has_entry_fresh k es h.1)
]

remove_entry_fresh : (k : ℕ) (es : List CallEntry) → TokensBelow k es → remove_entry (k + 1) es ≡ es
remove_entry_fresh k [] h = refl
remove_entry_fresh k (e ∷ es) h = elim (Bool-cases (k + 1 == e.token_id)) [
  | inl z ↦ absurd (ground (arith, h.0))
  | inr z ↦ rw z (ap (◌∷◌ e) (remove_entry_fresh k es h.1))
]

TokensBelow-mono : (k k' : ℕ) (es : List CallEntry) → k ≤ k' → TokensBelow k es → TokensBelow k' es
TokensBelow-mono k k' [] l h = tt
TokensBelow-mono k k' (e ∷ es) l h = (omega (arith, l, h.0), TokensBelow-mono k k' es l h.1)

same_token : (k : ℕ) → (k == k) ≡ true
same_token k = ground arith

token_id-entry_of : (token : ℕ) (raw : Bytes) → (entry_of token raw).token_id ≡ token
unfolding entry_of
token_id-entry_of token raw = go (blank_line_at raw)
  where
    go : (o : Option ℕ) → (entry_from token raw o).token_id ≡ token
    go none = refl
    go (some i) = refl

find_entry_here :
    (k : ℕ) (e : CallEntry) (es : List CallEntry) → e.token_id ≡ k → find_entry k (e ∷ es) ≡ some e
find_entry_here k e es h =
    ap (λ b. if b then some e else find_entry k es) (ap (λ t. k == t) h ∙ same_token k)

other_token : (k t : ℕ) → k < t → (k == t) ≡ false
other_token k t h = ground arith

remove_entry_here :
    (k : ℕ) (e : CallEntry) (es : List CallEntry)
    → e.token_id ≡ k
    → remove_entry k (e ∷ es) ≡ remove_entry k es
remove_entry_here k e es h =
    ap (λ b. if b then remove_entry k es else e ∷ remove_entry k es)
      (ap (λ t. k == t) h ∙ same_token k)

find_entry_there :
    (k : ℕ) (e : CallEntry) (es : List CallEntry)
    → k < e.token_id
    → find_entry k (e ∷ es) ≡ find_entry k es
find_entry_there k e es h =
    ap (λ b. if b then some e else find_entry k es) (other_token k e.token_id h)

module _ (ctx : CallCtx) (ptr : ℕ) (raw : Bytes) (g : Guest)
    (below : TokensBelow ctx.http_call_next_token ctx.http_calls)
    (word : ctx.http_call_next_token + 1 < 2 ^ 32) where
  next_token_suc : next_token ctx ≡ ctx.http_call_next_token + 1
  next_token_suc = ground (arith, word)

  entry_token : (entry_of (next_token ctx) raw).token_id ≡ ctx.http_call_next_token + 1
  entry_token = token_id-entry_of (next_token ctx) raw ∙ next_token_suc

  inserted :
      insert_entry (entry_of (next_token ctx) raw) ctx.http_calls
      ≡ entry_of (next_token ctx) raw ∷ ctx.http_calls
  inserted =
      ap (λ b. if b then ctx.http_calls else entry_of (next_token ctx) raw ∷ ctx.http_calls)
        (ap (λ t. has_entry t ctx.http_calls) entry_token ∙ has_entry_fresh _ ctx.http_calls below)

  -- What the token has been written to, and what the context keeps.
  abbrev pub Kept : ℕ → CallCtx × CallStatus → Type 0
  Kept other r =
      (r.1 ≡ call_ok)
      × (r.0.guest ≡ g)
      × (find_entry (ctx.http_call_next_token + 1) r.0.http_calls
          ≡ some (entry_of (ctx.http_call_next_token + 1) raw))
      × (find_entry other r.0.http_calls ≡ find_entry other ctx.http_calls)
      × TokensBelow r.0.http_call_next_token r.0.http_calls

  found_new :
      (es : List CallEntry)
      → find_entry (ctx.http_call_next_token + 1) (entry_of (next_token ctx) raw ∷ es)
        ≡ some (entry_of (ctx.http_call_next_token + 1) raw)
  found_new es =
      find_entry_here _ (entry_of (next_token ctx) raw) es entry_token
      ∙ ap (λ t. some (entry_of t raw)) next_token_suc

  found_other :
      (other : ℕ) (es : List CallEntry)
      → other ≤ ctx.http_call_next_token
      → find_entry other (entry_of (next_token ctx) raw ∷ es) ≡ find_entry other es
  found_other other es h =
      find_entry_there other (entry_of (next_token ctx) raw) es (omega (arith, entry_token, h))

  below_next :
      TokensBelow (next_token ctx) (insert_entry (entry_of (next_token ctx) raw) ctx.http_calls)
  below_next = rw inserted (
    omega (arith, entry_token, next_token_suc),
    TokensBelow-mono _ _ ctx.http_calls (omega (arith, next_token_suc)) below,
  )

  removed :
      remove_entry (next_token ctx) (insert_entry (entry_of (next_token ctx) raw) ctx.http_calls)
      ≡ ctx.http_calls
  removed =
      ap (remove_entry (next_token ctx)) inserted
      ∙ (remove_entry_here (next_token ctx) (entry_of (next_token ctx) raw) ctx.http_calls
            (entry_token ∙ sym next_token_suc)
          ∙ (ap (λ t. remove_entry t ctx.http_calls) next_token_suc
              ∙ remove_entry_fresh _ ctx.http_calls below))

  -- Where the entry can be allocated and the token can be written to the module's memory, the call keeps the response under a token that
  -- is one above the last, writes that token, leaves the entry of every earlier token as it was, and leaves
  -- no token above the last. No token was above the last, and there are fewer than 2^32 - 1 of them.
  pub keep_reply_keeps :
      (other : ℕ)
      → other ≤ ctx.http_call_next_token
      → write_u32 ctx.guest ptr (next_token ctx) ≡ (g, returned)
      → Kept other (keep_reply true ctx ptr raw)
  unfolding keep_reply
  keep_reply_keeps other h e = rw e (
    refl,
    refl,
    ap (find_entry _) inserted ∙ found_new ctx.http_calls,
    ap (find_entry other) inserted ∙ found_other other ctx.http_calls h,
    below_next,
  )

  -- Where it cannot be written, the call fails, and the responses that are kept are the ones that were kept
  -- before.
  pub keep_reply_fails :
      write_u32 ctx.guest ptr (next_token ctx) ≡ (g, failed)
      → ((keep_reply true ctx ptr raw).1 ≡ call_internal)
        × ((keep_reply true ctx ptr raw).0.http_calls ≡ ctx.http_calls)
  unfolding keep_reply
  keep_reply_fails e = rw e (refl, removed)
