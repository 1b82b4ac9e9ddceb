-- ===== src/Headers/Response.antt =====
-- The headers of a callout's response, which src/proxy_wasm_headers.c reads from the raw text of the
-- response each time: pw_http_call_response_find_header, pw_http_call_response_headers_size, and the
-- pairs that proxy_get_header_map_pairs makes of them. The text is a C string: a NUL ends it.
pub mod Sizes
pub mod Lines
pub mod Lookup
use mathlib.Core.List.{reverse}
use vmod_wasm.Base.{
  ℕ, zero, suc, ◌+◌, ◌*◌, Bool, true, false, ◌&&◌, ◌||◌, List, [], ◌∷◌, ◌++◌, Option, none, some,
  ltb, leb, ◌==◌, if◌then◌else◌, length, drop, Bytes, codes, bytes_eq,
}
use vmod_wasm.Headers.Trailers.{same_text}
use vmod_wasm.Headers.Wire.{Pair}
use vmod_wasm.Headers.Maps.{has_prefix}
use vmod_wasm.Http.Numbers.{skip_blanks}
use vmod_wasm.Http.Upstream.{split_at}

-- The line that a byte ends, and what the next line starts with: the last byte first.
abbrev line_step : Bytes → ℕ → Option Bytes × Bytes
line_step [] c = (none, c ∷ [])
line_step (x ∷ acc) c =
    if x == 13 && c == 10 then (some (reverse acc), []) else (none, c ∷ (x ∷ acc))

abbrev emit_line : Option Bytes → List Bytes → List Bytes
emit_line none ls = ls
emit_line (some l) ls = l ∷ ls

-- The texts that `strstr(p, "\r\n")` finds one after the other, as far as there is a CRLF.
unfoldable pub lines_from : Bytes → Bytes → List Bytes
lines_from acc [] = []
lines_from acc (c ∷ cs) =
    let (done, next) = line_step acc c in
    let rest = lines_from next cs in if c == 0 then [] else emit_line done rest

-- Between the first and the second blank of the status line, or to its end.
pub status_text : Bytes → Option Bytes
status_text line = elim (split_at b' ' line) [
  | none ↦ none
  | some (_, rest) ↦ elim (split_at b' ' rest) [ none ↦ some rest | some (status, _) ↦ some status ]
]

abbrev pub pair_of_text : Option Bytes → List Pair
pair_of_text none = []
pair_of_text (some status) = (codes ":status", status) ∷ []

abbrev pub status_pair : Bytes → List Pair
status_pair line = pair_of_text (status_text line)

abbrev pub max_headers : ℕ
max_headers = 64

-- None for a line without a colon.
pub line_pair : Bytes → List Pair
line_pair line = elim (split_at b':' line) [
  | none ↦ []
  | some (key, rest) ↦ (key, skip_blanks rest) ∷ []
]

-- The pairs of the header lines, `count` pairs having been found.
pub line_pairs : ℕ → List Bytes → List Pair
line_pairs count [] = []
line_pairs count (l ∷ ls) =
    let here = line_pair l in
    let rest = line_pairs (count + length here) ls in
    if leb max_headers count || length l == 0 then [] else here ++ rest

abbrev pub pairs_of_lines : List Bytes → List Pair
pairs_of_lines [] = []
pairs_of_lines (status ∷ ls) = let s = status_pair status in s ++ line_pairs (length s) ls

pub response_pairs : Bytes → List Pair
response_pairs raw = pairs_of_lines (lines_from [] raw)

-- The same loop with a count and a size in place of the pairs.
pub size_loop : ℕ → ℕ → List Bytes → ℕ × ℕ
size_loop count size [] = (count, size)
size_loop count size (l ∷ ls) =
    let (count2, size2) : ℕ × ℕ = elim (split_at b':' l) [
      | none ↦ (count, size)
      | some (key, rest) ↦ (count + 1, size + (8 + length key + 1 + length (skip_blanks rest) + 1))
    ] in
    let rest = size_loop count2 size2 ls in
    if leb max_headers count || length l == 0 then (count, size) else rest

abbrev pub of_text : Option Bytes → ℕ × ℕ
of_text none = (0, 4)
of_text (some status) = (1, 4 + (8 + length (codes ":status") + 1 + length status + 1))

abbrev pub status_size : Bytes → ℕ × ℕ
status_size line = of_text (status_text line)

abbrev pub size_of_lines : List Bytes → ℕ × ℕ
size_of_lines [] = (0, 4)
size_of_lines (status ∷ ls) = let (count, size) = status_size status in size_loop count size ls

pub response_headers_size : Bytes → ℕ
response_headers_size raw =
    let (count, size) = size_of_lines (lines_from [] raw) in if count == 0 then 0 else size

abbrev pub starts_with : ℕ → Bytes → Bool
starts_with c [] = false
starts_with c (x ∷ line) = x == c

-- The test of one header line.
pub is_line_of : Bytes → Bytes → Bool
is_line_of key l =
    ltb (length key + 1) (length l) && (has_prefix key l && starts_with b':' (drop (length key) l))

pub find_line : Bytes → List Bytes → Option Bytes
find_line key [] = none
find_line key (l ∷ ls) =
    let rest = find_line key ls in
    if length l == 0
    then none
    else if is_line_of key l
    then some (skip_blanks (drop (length key + 1) l))
    else rest

abbrev pub find_in_lines : Bytes → List Bytes → Option Bytes
find_in_lines key [] = none
find_in_lines key (status ∷ ls) =
    if bytes_eq key (codes ":status") then status_text status else find_line key ls

pub find_header : Bytes → Bytes → Option Bytes
find_header raw key = find_in_lines key (lines_from [] raw)
