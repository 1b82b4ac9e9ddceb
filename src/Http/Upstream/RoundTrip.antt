-- ===== src/Http/Upstream/RoundTrip.antt =====
-- parse_upstream against the text that "%s:%u" prints, and the allowlist check.
use vmod_wasm.Base.{
  ℕ, ◌≤◌, ◌<◌, ◌≡◌, ◌↔◌, refl, sym, ◌∙◌, inl, inr, Bool, true, false, ◌||◌, List, [], ◌∷◌, ◌++◌,
  none, some, ltb, leb, arith, ◌==◌, if◌then◌else◌, Bool-cases, length, length-append, Bytes,
  bytes_eq, bytes_eq_iff, take_all,
}
use mathlib.Core.Logic.Or
use mathlib.Core.List.{Mem, not-mem-nil, eq-or-mem_of_mem-cons, mem-cons_self, mem-cons_of_mem}
use vmod_wasm.Base.Decimal.{decimal, all_digits-decimal}
use vmod_wasm.Http.Numbers.Sizes.{parse_port-decimal}
use vmod_wasm.Http.Tokens.{host_ok}
use vmod_wasm.Http.Tokens.Hosts.{host_digits_has_line_ctl, host_ok-length_pos}
use vmod_wasm.Http.Upstream.{
  split_at, with_port, parse_upstream, upstream_check, on_list, check_allowed,
}

abbrev has : ℕ → Bytes → Bool
has c [] = false
has c (x ∷ xs) = x == c || has c xs

split_at-append :
    (c : ℕ) (before after : Bytes)
    → has c before ≡ false
    → split_at c (before ++ (c ∷ after)) ≡ some (before, after)
unfolding split_at
split_at-append c [] after h = let e : (c == c) ≡ true = ground arith in rw e refl
split_at-append c (x ∷ before) after h =
    let ne : (x == c) ≡ false = ground arith in
    rw (ne, split_at-append c before after (rw ne at h)) refl

-- The text "host:port" of a proper host without a colon and of a port from 1 to 65535 is parsed to
-- these two, if it and its terminating NUL fit in the buffer.
pub parse_upstream-print :
    (host_sz : ℕ) (host : Bytes) (port : ℕ)
    → host_ok host ≡ true
    → has b':' host ≡ false
    → 1 ≤ port
    → port ≤ 65535
    → length (host ++ (b':' ∷ decimal port)) < host_sz
    → parse_upstream host_sz (host ++ (b':' ∷ decimal port)) ≡ some (host, port)
unfolding parse_upstream with_port
parse_upstream-print host_sz host port ok no_colon lo hi fits =
    let pos = host_ok-length_pos host ok in
    let l = length-append host (b':' ∷ decimal port) in
    let ctl = host_digits_has_line_ctl host (decimal port) ok (all_digits-decimal port) in
    let size : (length (host ++ (b':' ∷ decimal port)) == 0
          || leb host_sz (length (host ++ (b':' ∷ decimal port))))
        ≡ false =
      ground arith in
    let host_size : (length host == 0 || leb host_sz (length host)) ≡ false = ground arith in
    rw
      (
        size,
        ctl,
        split_at-append b':' host (decimal port) no_colon,
        host_size,
        ok,
        parse_port-decimal port lo hi,
      )
      refl

on_list-Mem : (s : Bytes) (xs : List Bytes) → (on_list s xs ≡ true) ↔ Mem s xs
unfolding on_list
on_list-Mem s [] = (λ e. absurd (cc e), λ m. absurd (not-mem-nil m))
on_list-Mem s (x ∷ xs) = elim (Bool-cases (bytes_eq s x)) [
  | inl same ↦
      let e : s ≡ x = (bytes_eq_iff s x).0 same in (λ t. rw e mem-cons_self, λ m. rw same refl)
  | inr other ↦
      let ih = on_list-Mem s xs in
      let tail : Mem s (x ∷ xs) → on_list s xs ≡ true = (λ m.
        Or.elim (hlevel) (eq-or-mem_of_mem-cons m)
          (λ e. absurd (cc (other, (bytes_eq_iff s x).1 e))) ih.1) in
      (λ t. mem-cons_of_mem x (ih.0 (rw other at t)), λ m. rw other (tail m))
]

check_allowed_listed :
    (s : Bytes) (allowed : List Bytes) (host : Bytes) (port : ℕ)
    → ltb 0 (length allowed) ≡ true
    → upstream_check host port ≡ s
    → check_allowed (some allowed) host port ≡ (if on_list s allowed then some true else none)
unfolding check_allowed
check_allowed_listed s allowed host port h text = rw (h, text) refl

choice_lem : (b : Bool) → ((if b then some true else none) ≡ some true) ↔ (b ≡ true)
choice_lem true = (λ e. refl, λ e. refl)
choice_lem false = (λ e. absurd (cc e), λ e. absurd (cc e))

-- With a non-empty allowlist, a call is let through, and then exempt from the check of its address,
-- exactly if "host:port" is on the list.
pub check_allowed-Mem :
    (x : Bytes) (xs : List Bytes) (host : Bytes) (port : ℕ)
    → length (host ++ (b':' ∷ decimal port)) ≤ 279
    → (check_allowed (some (x ∷ xs)) host port ≡ some true)
      ↔ Mem (host ++ (b':' ∷ decimal port)) (x ∷ xs)
check_allowed-Mem x xs host port fits =
    let text : upstream_check host port ≡ host ++ (b':' ∷ decimal port) =
      take_all 279 (host ++ (b':' ∷ decimal port)) fits in
    let listed = on_list-Mem (host ++ (b':' ∷ decimal port)) (x ∷ xs) in
    let e =
      check_allowed_listed (host ++ (b':' ∷ decimal port)) (x ∷ xs) host port (ground arith) text in
    let c = choice_lem (on_list (host ++ (b':' ∷ decimal port)) (x ∷ xs)) in
    (λ t. listed.0 (c.0 (sym e ∙ t)), λ m. e ∙ c.1 (listed.1 m))
