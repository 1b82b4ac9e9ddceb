-- ===== src/Http/Callouts/Sending.antt =====
-- pw_http_write_all of src/proxy_wasm_http.c: what it sends, and that it ends.
use mathlib.Core.List.{append_assoc, append-nil}
use vmod_wasm.Base.{
  ℕ, zero, suc, ◌≤◌, ◌<◌, ◌≡◌, refl, sym, ap, ◌∙◌, Bool, true, [], ◌∷◌, ◌++◌, Option, none, some,
  length, take, drop, Bytes, arith,
}
use vmod_wasm.Http.Replies.Ends.{append-take-drop}
use vmod_wasm.Http.Callouts.{write_all, left_over, go_on}

-- A socket with the bytes that have been sent to it: a write sends as many as it says, from the front.
abbrev pub Sends : {S : Type 0} → (Bytes → S → Option ℕ × S) → (S → Bytes) → Type 0
Sends {S} write sent =
    (p : Bytes) (s : S) (n : ℕ) → (write p s).0 ≡ some n → sent (write p s).1 ≡ sent s ++ take n p

-- A socket that takes a byte at least of whatever is written to it.
abbrev pub Accepts : {S : Type 0} → (Bytes → S → Option ℕ × S) → Type 0
Accepts {S} write = (p : Bytes) (s : S) → 0 < length p → (n : ℕ) × ((write p s).0 ≡ some (suc n))

length-drop_le : (n : ℕ) (p : Bytes) → length (drop n p) ≤ length p
length-drop_le zero p = omega arith
length-drop_le (suc n) [] = omega arith
length-drop_le (suc n) (c ∷ p) = omega (arith, length-drop_le n p)

go_on_succeeds :
    {S : Type 0} (o : Option ℕ) (n c : ℕ) (cs : Bytes) (s : S) (f : Bytes → S → Bool × S)
    → o ≡ some (suc n)
    → (f (drop n cs) s).0 ≡ true
    → (go_on (left_over (c ∷ cs) o) s f).0 ≡ true
go_on_succeeds o n c cs s f e h = rw e h

go_on_sends :
    {S : Type 0} (sent : S → Bytes) (o : Option ℕ) (p : Bytes) (s s' : S) (f : Bytes → S → Bool × S)
    → ((n : ℕ) → o ≡ some n → sent s' ≡ sent s ++ take n p)
    → ((rest : Bytes) → (f rest s').0 ≡ true → sent (f rest s').1 ≡ sent s' ++ rest)
    → (go_on (left_over p o) s' f).0 ≡ true
    → sent (go_on (left_over p o) s' f).1 ≡ sent s ++ p
go_on_sends sent none p s s' f g k h = cc h
go_on_sends sent (some zero) p s s' f g k h = cc h
go_on_sends sent (some (suc n)) p s s' f g k h =
    k _ h
    ∙ (ap (λ b. b ++ drop (suc n) p) (g (suc n) refl)
        ∙ (append_assoc (sent s) _ _ ∙ ap (λ b. sent s ++ b) (append-take-drop (suc n) p)))

module _ {S : Type 0} (write : Bytes → S → Option ℕ × S) where
  -- Where a socket takes a byte at least of each write, everything is sent.
  pub write_all_succeeds :
      (fuel : ℕ) (p : Bytes) (s : S)
      → Accepts write
      → length p ≤ fuel
      → (write_all write fuel p s).0 ≡ true
  unfolding write_all
  write_all_succeeds zero [] s acc h = refl
  write_all_succeeds zero (c ∷ cs) s acc h = absurd (ground arith)
  write_all_succeeds (suc fuel) [] s acc h = refl
  write_all_succeeds (suc fuel) (c ∷ cs) s acc h =
      let (n, e) = acc (c ∷ cs) s (omega arith) in
      go_on_succeeds _ n c cs _ _ e
        (write_all_succeeds fuel (drop n cs) _ acc (omega (arith, h, length-drop_le n cs)))

  module _ (sent : S → Bytes) (sends : Sends write sent) where
    write_all_from :
        (fuel : ℕ) (p : Bytes) (s : S)
        → (write_all write fuel p s).0 ≡ true
        → sent (write_all write fuel p s).1 ≡ sent s ++ p
    unfolding write_all
    write_all_from zero [] s h = sym (append-nil _)
    write_all_from zero (c ∷ cs) s h = cc h
    write_all_from (suc fuel) [] s h = sym (append-nil _)
    write_all_from (suc fuel) (c ∷ cs) s h =
        go_on_sends sent (write (c ∷ cs) s).0 (c ∷ cs) s (write (c ∷ cs) s).1 _
          (λ n e. sends (c ∷ cs) s n e) (λ rest e. write_all_from fuel rest (write (c ∷ cs) s).1 e)
          h

    -- Where the call succeeds, it has sent exactly the bytes of the buffer, in order, however many of them
    -- each write takes.
    pub write_all_sends :
        (p : Bytes) (s : S)
        → (write_all write (length p) p s).0 ≡ true
        → sent (write_all write (length p) p s).1 ≡ sent s ++ p
    write_all_sends p s = write_all_from (length p) p s
