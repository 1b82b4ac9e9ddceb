-- ===== src/Http/Replies/Exact.antt =====
-- What a complete response of src/proxy_wasm_http.c is, and a reusable one, as its buffer grows or is cut.
use mathlib.Core.Option.{some-injective}
use vmod_wasm.Base.{
  ℕ, ◌+◌, ◌≤◌, ◌≡◌, refl, sym, ap, ◌∙◌, Bool, true, false, not, ◌&&◌, [], ◌++◌, some, ltb, length,
  take, drop, length-append, Bytes, codes, bytes_eq_iff, arith,
}
use vmod_wasm.Http.Replies.{
  max_response, header_end, Reply, unframed, framed, is_chunked, is_http11, is_closing, framing,
  incomplete, ReplyStatus,
}
use vmod_wasm.Http.Replies.Ends.{
  take-append, append-take-drop, length-take, length-take_le, header_end_bounds, header_end-append,
  header_end_of_prefix,
}

-- The bytes are headers, not chunked, and a body of the length that they give.
abbrev pub IsFramed : Bytes → Type 0
IsFramed b =
    (n m : ℕ) × (header_end b ≡ some n)
    × (is_chunked (take n b) ≡ false)
    × (framing (take n b) ≡ framed m)
    × (length b ≡ n + m)

-- The bytes are headers, not chunked, that give no length.
abbrev pub IsBare : Bytes → Type 0
IsBare b =
    (n : ℕ) × (header_end b ≡ some n)
    × (is_chunked (take n b) ≡ false)
    × (framing (take n b) ≡ unframed)
    × (length b ≡ n)

-- A response as it is taken for complete, and the bytes that have been read behind it.
pub data IsAnswer (received : Bytes) : Bytes → Type 0 where
  with_length : {x : Bytes} → IsFramed received → IsAnswer received x
  without_length : IsBare received → IsAnswer received []

-- What a response to be kept alive has to be, as its headers say.
abbrev pub KeepsAlive : Bool → Bytes → Type 0
KeepsAlive ssrf_exempt b =
    (ssrf_exempt ≡ true)
    × (is_http11 b ≡ true)
    × ((n : ℕ) → header_end b ≡ some n → is_closing (take n b) ≡ false)

-- A response whose connection can be used again.
abbrev pub IsReusable : Bool → Bytes → Type 0
IsReusable ssrf_exempt b =
    (ssrf_exempt ≡ true)
    × (is_http11 b ≡ true)
    × (n m : ℕ) × (header_end b ≡ some n)
    × (is_closing (take n b) ≡ false)
    × (is_chunked (take n b) ≡ false)
    × (framing (take n b) ≡ framed m)
    × (length b ≡ n + m)

pub IsReusable-framed :
    (ssrf_exempt : Bool) (b : Bytes)
    → KeepsAlive ssrf_exempt b
    → IsFramed b
    → IsReusable ssrf_exempt b
IsReusable-framed ssrf_exempt b (x, v, c) (n, m, e, k, d, l) = (x, v, n, m, e, c n e, k, d, l)

-- A response as the code may leave it, with its socket: not taken for complete, or an answer; where its
-- connection is reusable, all that has been read is the response.
abbrev pub IsGood : {S : Type 0} → (Bytes → S → Type 0) → Bool → Reply S → Type 0
IsGood Seen ssrf_exempt r =
    (length r.received ≤ max_response)
    × (r.complete ≡ true → (x : Bytes) × Seen (r.received ++ x) r.socket × IsAnswer r.received x)
    × (r.reusable ≡ true → IsReusable ssrf_exempt r.received × Seen r.received r.socket)

pub incomplete-IsGood :
    {S : Type 0} (Seen : Bytes → S → Type 0) (ssrf_exempt : Bool) (status : ReplyStatus) (b : Bytes)
    (s : S)
    → length b ≤ max_response
    → IsGood Seen ssrf_exempt (incomplete status b s)
incomplete-IsGood Seen ssrf_exempt status b s h = (h, λ e. cc e, λ e. cc e)

-- The headers of a buffer that is known to hold them, whatever follows.
take_headers : (b x : Bytes) {n : ℕ} → header_end b ≡ some n → take n (b ++ x) ≡ take n b
take_headers b x {n} e = take-append n b x (header_end_bounds b e).1

pub IsFramed-cut :
    (b : Bytes) (n m : ℕ)
    → header_end b ≡ some n
    → is_chunked (take n b) ≡ false
    → framing (take n b) ≡ framed m
    → n + m ≤ length b
    → IsFramed (take (n + m) b)
IsFramed-cut b n m e c d h =
    let b' = take (n + m) b in
    let whole = append-take-drop (n + m) b in
    let l = length-take (n + m) b h in
    let e' =
      header_end_of_prefix b' (drop (n + m) b) (ap header_end whole ∙ e) (omega (arith, l)) in
    let same = sym (take_headers b' (drop (n + m) b) e') ∙ ap (take n) whole in
    (n, m, e', ap is_chunked same ∙ c, ap framing same ∙ d, l)

pub IsFramed-grown :
    (b x : Bytes) (n m : ℕ)
    → header_end b ≡ some n
    → is_chunked (take n b) ≡ false
    → framing (take n b) ≡ framed m
    → length b + length x ≡ n + m
    → IsFramed (b ++ x)
IsFramed-grown b x n m e c d h =
    let same = take_headers b x e in
    (
      n,
      m,
      header_end-append b x e,
      ap is_chunked same ∙ c,
      ap framing same ∙ d,
      length-append b x ∙ h,
    )

take_all_of : (b x w : Bytes) (k : ℕ) → length w ≡ k → take k b ≡ w → take k (b ++ x) ≡ w
take_all_of b x w k h e = take-append k b x (omega (arith, h, ap length e, length-take_le k b)) ∙ e

is_http11-append : (b x : Bytes) → is_http11 b ≡ true → is_http11 (b ++ x) ≡ true
is_http11-append b x h =
    let http11 = codes "HTTP/1.1" in
    (bytes_eq_iff _ http11).1 (take_all_of b x http11 8 refl ((bytes_eq_iff _ http11).0 h))

pub ltb-false : {a b : ℕ} → ltb a b ≡ false → b ≤ a
ltb-false h = ground arith

pub and3 : (a b c : Bool) → (a && not b && c) ≡ true → (a ≡ true) × (b ≡ false) × (c ≡ true)
and3 a b c h = ground arith

pub KeepsAlive-grown :
    (ssrf_exempt : Bool) (b x : Bytes) {n : ℕ}
    → header_end b ≡ some n
    → KeepsAlive ssrf_exempt b
    → KeepsAlive ssrf_exempt (b ++ x)
KeepsAlive-grown ssrf_exempt b x {n} e (h, v, c) = (
  h,
  is_http11-append b x v,
  λ k e'.
      ap is_closing (
        ap (λ i. take i (b ++ x)) (some-injective _ _ (sym e' ∙ header_end-append b x e))
        ∙ take_headers b x e)
      ∙ c n e,
)
