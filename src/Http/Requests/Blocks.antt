-- ===== src/Http/Requests/Blocks.antt =====
-- The request that is sent is made of whole lines, whatever the guest's headers hold.
use mathlib.Core.List.{append_assoc, append-nil}
use mathlib.Core.Option.{some-injective}
use vmod_wasm.Base.{
  ℕ, zero, suc, ◌+◌, ◌*◌, ◌≡◌, ◌<◌, refl, sym, ap, ◌∙◌, inl, inr, arith, Bool, false, not, ◌&&◌,
  ◌||◌, List, [], ◌∷◌, ◌++◌, Option, none, some, Option-cases, ltb, leb, ◌==◌, Bool-cases, length,
  Bytes, codes, bytes_eq,
}
use vmod_wasm.Headers.Wire.{Pair, word_at}
use vmod_wasm.Http.Tokens.{has_line_ctl, int_max, header_line, method_ok, path_ok, append_header}
use vmod_wasm.Http.Tokens.Lines.{append_header-IsAppended, method_has_line_ctl, path_has_line_ctl}
use vmod_wasm.Http.Requests.{
  Request, default_request, take_text, is_plain, header_step, read_headers, read_region, request_of,
  request_text, Built, bad_argument, internal_error, built, build_text, check_request,
  build_request,
}
use vmod_wasm.Memory.{Guest, validate_region, read_at}

-- The header lines of pairs.
abbrev pub block : List Pair → Bytes
block [] = []
block ((key, val) ∷ ps) = header_line key val ++ block ps

-- No key and no value can break a line or end the text.
abbrev pub AllClean : List Pair → Type 0
AllClean [] = Unit {0}
AllClean ((key, val) ∷ ps) = (has_line_ctl key ≡ false) × (has_line_ctl val ≡ false) × AllClean ps

pub record IsBlock (text : Bytes) : Type 0 where
  pub pairs : List Pair
  pub made_of : text ≡ block pairs
  pub all_clean : AllClean pairs

block-append : (ps qs : List Pair) → block (ps ++ qs) ≡ block ps ++ block qs
block-append [] qs = refl
block-append ((key, val) ∷ ps) qs =
    ap (λ t. header_line key val ++ t) (block-append ps qs)
    ∙ sym (append_assoc (header_line key val) (block ps) (block qs))

AllClean-append : (ps qs : List Pair) → AllClean ps → AllClean qs → AllClean (ps ++ qs)
AllClean-append [] qs h k = k
AllClean-append ((key, val) ∷ ps) qs (a, b, h) k = (a, b, AllClean-append ps qs h k)

append_header-IsBlock :
    (text key val out : Bytes)
    → append_header 4096 text key val ≡ some out
    → IsBlock text
    → IsBlock out
append_header-IsBlock text key val out e h =
    let (same, (key_clean, (val_clean, rest))) = append_header-IsAppended 4096 text key val out e in
    record {
      pairs = h.pairs ++ (key, val) ∷ [];
      made_of =
          same
          ∙ (ap (λ t. t ++ header_line key val) h.made_of
              ∙ (ap (λ t. block h.pairs ++ t) (sym (append-nil (header_line key val)))
                  ∙ sym (block-append h.pairs ((key, val) ∷ []))));
      all_clean = AllClean-append h.pairs ((key, val) ∷ []) h.all_clean (key_clean, val_clean, tt);
    }

same-IsBlock : (r r2 : Request) → r ≡ r2 → IsBlock r.extra → IsBlock r2.extra
same-IsBlock r r2 e h = rw⁻¹ e h

header_step-IsBlock :
    (r r2 : Request) (key val : Bytes)
    → header_step r key val ≡ some r2
    → IsBlock r.extra
    → IsBlock r2.extra
unfolding header_step
header_step-IsBlock r r2 key val e h = elim (Bool-cases (bytes_eq key (codes ":method"))) [
  | inl is_method ↦
      same-IsBlock (record r { method = val }) r2
        (some-injective _ _ (rw (is_method, header_step) at e)) h
  | inr no_method ↦ elim (Bool-cases (bytes_eq key (codes ":path"))) [
    | inl is_path ↦
        same-IsBlock (record r { path = val }) r2
          (some-injective _ _ (rw (no_method, is_path, header_step) at e)) h
    | inr no_path ↦ elim (Bool-cases (is_plain key)) [
      | inr pseudo ↦
          same-IsBlock r r2 (some-injective _ _ (rw (no_method, no_path, pseudo, header_step) at e))
            h
      | inl plain ↦ elim (Option-cases (append_header 4096 r.extra key val)) [
        | inl refused ↦
            let e2 = rw (no_method, no_path, plain, refused, header_step) at e in
            absurd (ground arith)
        | inr (out, added) ↦
            same-IsBlock (record r { extra = out }) r2
              (some-injective _ _ (rw (no_method, no_path, plain, added, header_step) at e))
              (append_header-IsBlock r.extra key val out added h)
      ]
    ]
  ]
]

read_headers-IsBlock :
    (n i offset : ℕ) (content : Bytes) (r r2 : Request)
    → read_headers n i offset content r ≡ some r2
    → IsBlock r.extra
    → IsBlock r2.extra
unfolding read_headers
read_headers-IsBlock zero i offset content r r2 e h = same-IsBlock r r2 (some-injective _ _ e) h
read_headers-IsBlock (suc n) i offset content r r2 e h =
    let key_size = word_at content (4 + i * 8) in
    let val_size = word_at content (4 + i * 8 + 4) in
    elim (Option-cases (take_text content offset key_size)) [
      | inl no_key ↦ let e2 = rw (no_key, read_headers) at e in absurd (ground arith)
      | inr (key, k) ↦ elim (Option-cases (take_text content (offset + key_size + 1) val_size)) [
        | inl no_val ↦ let e2 = rw (k, no_val, read_headers) at e in absurd (ground arith)
        | inr (val, v) ↦ elim (Option-cases (header_step r key val)) [
          | inl refused ↦ let e2 = rw (k, v, refused, read_headers) at e in absurd (ground arith)
          | inr (next, s) ↦
              read_headers-IsBlock n (i + 1) (offset + key_size + 1 + val_size + 1) content next r2
                (rw (k, v, s, read_headers) at e) (header_step-IsBlock r next key val s h)
        ]
      ]
    ]

no_lines : IsBlock []
no_lines = record { pairs = []; made_of = refl; all_clean = tt }

read_region-IsBlock :
    (content : Bytes) (r : Request) → read_region content ≡ some r → IsBlock r.extra
read_region-IsBlock content r e = elim (Bool-cases (ltb 64 (word_at content 0))) [
  | inl many ↦ let e2 = rw (many, read_region) at e in absurd (ground arith)
  | inr few ↦ elim (Bool-cases (ltb (length content) (4 + word_at content 0 * 8))) [
    | inl short ↦ let e2 = rw (few, short, read_region) at e in absurd (ground arith)
    | inr long ↦
        read_headers-IsBlock (word_at content 0) 0 (4 + word_at content 0 * 8) content
          default_request r (rw (few, long, read_region) at e) no_lines
  ]
]

in_memory-IsBlock :
    (memory : Option Bytes) (ptr size : ℕ) (r : Request)
    → (elim memory [ none ↦ none | some m ↦ read_region (read_at m ptr size) ]) ≡ some r
    → IsBlock r.extra
in_memory-IsBlock none ptr size r e = absurd (ground arith)
in_memory-IsBlock (some m) ptr size r e = read_region-IsBlock (read_at m ptr size) r e

request_of-IsBlock :
    (g : Guest) (ptr size : ℕ) (r : Request) → request_of g ptr size ≡ some r → IsBlock r.extra
unfolding request_of
request_of-IsBlock g ptr size r e = elim (Bool-cases (size == 0)) [
  | inl empty ↦
      same-IsBlock default_request r (some-injective _ _ (rw (empty, request_of) at e)) no_lines
  | inr some_size ↦ elim (Bool-cases (ltb size 4 || not (validate_region g.memory ptr size))) [
    | inl bad ↦ let e2 = rw (some_size, bad, request_of) at e in absurd (ground arith)
    | inr good ↦ in_memory-IsBlock g.memory ptr size r (rw (some_size, good, request_of) at e)
  ]
]

-- The text of a request with clean parts that fits in the buffer.
pub record IsClean (host : Bytes) (keep_alive : Bool) (body_size : ℕ) (text : Bytes) : Type 0 where
  pub request : Request
  pub same_text : text ≡ request_text host keep_alive body_size request
  pub clean_method : has_line_ctl request.method ≡ false
  pub clean_path : has_line_ctl request.path ≡ false
  pub lines : IsBlock request.extra
  pub fits : length text < 8192

abbrev text_in : Built → Bytes
text_in bad_argument = []
text_in internal_error = []
text_in (built text) = text

length_below :
    (r : Request) (host : Bytes) (keep_alive : Bool) (body_size : ℕ)
    → leb 8192 (length (request_text host keep_alive body_size r)) ≡ false
    → length (request_text host keep_alive body_size r) < 8192
length_below r host keep_alive body_size h = ground arith

build_text-IsClean :
    (host : Bytes) (keep_alive : Bool) (body_size : ℕ) (r : Request) (text : Bytes)
    → IsBlock r.extra
    → has_line_ctl r.method ≡ false
    → has_line_ctl r.path ≡ false
    → build_text host keep_alive body_size r ≡ built text
    → IsClean host keep_alive body_size text
build_text-IsClean host keep_alive body_size r text h clean_method clean_path e =
    elim (Bool-cases (leb 8192 (length (request_text host keep_alive body_size r)))) [
      | inl big ↦ let e2 = rw (big, build_text) at e in absurd (ground arith)
      | inr room ↦
          let same : request_text host keep_alive body_size r ≡ text =
            ap text_in (rw (room, build_text) at e) in
          record {
            request = r;
            same_text = sym same;
            clean_method = clean_method;
            clean_path = clean_path;
            lines = h;
            fits = rw⁻¹ same (length_below r host keep_alive body_size room);
          }
    ]

check_request-IsClean :
    (g : Guest) (host : Bytes) (keep_alive : Bool) (body_ptr body_size : ℕ) (r : Request)
    (text : Bytes)
    → IsBlock r.extra
    → check_request g host keep_alive body_ptr body_size r ≡ built text
    → IsClean host keep_alive body_size text
check_request-IsClean g host keep_alive body_ptr body_size r text h e =
    let checks =
      not (method_ok r.method)
      || (not (path_ok r.path) || (ltb int_max (length r.method) || ltb int_max (length r.path))) in
    elim (Bool-cases checks) [
      | inl bad ↦ let e2 = rw (bad, check_request) at e in absurd (ground arith)
      | inr good ↦
          elim (Bool-cases (ltb 0 body_size && not (validate_region g.memory body_ptr body_size))) [
            | inl no_body ↦ let e2 = rw (good, no_body, check_request) at e in absurd (ground arith)
            | inr body ↦
                build_text-IsClean host keep_alive body_size r text h
                  (method_has_line_ctl r.method (ground arith))
                  (path_has_line_ctl r.path (ground arith)) (rw (good, body, check_request) at e)
          ]
    ]

-- Whatever a guest's memory holds, and whatever region of it is given as the headers: a request that is
-- made has one line with its method and its path, neither of which breaks the line, the lines of the
-- module's own headers, and one whole line for each further header, whose name and value break no line
-- either. With its NUL it fits in the buffer of 8192 bytes.
pub build_request-IsClean :
    (g : Guest) (host : Bytes) (keep_alive : Bool) (headers_ptr headers_size body_ptr body_size : ℕ)
    (text : Bytes)
    → build_request g host keep_alive headers_ptr headers_size body_ptr body_size ≡ built text
    → IsClean host keep_alive body_size text
unfolding build_request
build_request-IsClean g host keep_alive headers_ptr headers_size body_ptr body_size text e =
    elim (Option-cases (request_of g headers_ptr headers_size)) [
      | inl bad ↦ let e2 = rw (bad, build_request) at e in absurd (ground arith)
      | inr (r, found) ↦
          check_request-IsClean g host keep_alive body_ptr body_size r text
            (request_of-IsBlock g headers_ptr headers_size r found) (rw (found, build_request) at e)
    ]
