-- ===== src/Http/Upstream.antt =====
-- pw_http_parse_upstream of src/proxy_wasm_http.c, and the check of an upstream against the allowlist
-- in pw_proxy_http_call.
pub mod RoundTrip
use vmod_wasm.Base.{
  ℕ, zero, suc, ◌+◌, ◌-◌, Bool, true, false, not, ◌&&◌, ◌||◌, List, [], ◌∷◌, ◌++◌, Option, none,
  some, ltb, leb, ◌==◌, if◌then◌else◌, length, take, Bytes, bytes_eq,
}
use vmod_wasm.Base.Decimal.{decimal}
use vmod_wasm.Http.Numbers.{parse_port}
use vmod_wasm.Http.Tokens.{has_line_ctl, host_ok}

-- The text before and behind the first `c`: `memchr`.
unfoldable pub split_at : ℕ → Bytes → Option (Bytes × Bytes)
split_at c [] = none
split_at c (x ∷ xs) =
    if x == c
    then some ([], xs)
    else elim (split_at c xs) [ none ↦ none | some (before, after) ↦ some (x ∷ before, after) ]

-- With a colon: the host before it and the port behind it.
unfoldable pub with_port : ℕ → Bytes → Bytes → Option (Bytes × ℕ)
with_port host_sz before after =
    if length before == 0 || leb host_sz (length before)
    then none
    else if not (host_ok before)
    then none
    else elim (parse_port after) [ none ↦ none | some port ↦ some (before, port) ]

unfoldable pub parse_upstream : ℕ → Bytes → Option (Bytes × ℕ)
unfolding with_port split_at
parse_upstream host_sz upstream =
    if length upstream == 0 || leb host_sz (length upstream)
    then none
    else if has_line_ctl upstream
    then none
    else elim (split_at b':' upstream) [
      | some (before, after) ↦ with_port host_sz before after
      | none ↦ if not (host_ok upstream) then none else some (upstream, 80)
    ]

-- `snprintf(upstream_check, sizeof(upstream_check), "%s:%u", host, port)` into 280 bytes.
abbrev pub upstream_check : Bytes → ℕ → Bytes
upstream_check host port = take 279 (host ++ (b':' ∷ decimal port))

unfoldable pub on_list : Bytes → List Bytes → Bool
on_list s [] = false
on_list s (x ∷ xs) = if bytes_eq s x then true else on_list s xs

-- The allowlist of the engine is NULL or a list. `none` refuses the call; otherwise the answer is
-- `ssrf_exempt`.
unfoldable pub check_allowed : Option (List Bytes) → Bytes → ℕ → Option Bool
unfolding on_list
check_allowed none host port = some false
check_allowed (some allowed) host port =
    if ltb 0 (length allowed)
    then if on_list (upstream_check host port) allowed then some true else none
    else some false
