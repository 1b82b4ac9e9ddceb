-- ===== src/Headers/Response/Lookup.antt =====
-- What is found for a header of a response, against the pairs that are listed for the response.
use vmod_wasm.Base.{
  ℕ, ◌+◌, ◌≡◌, ◌≤◌, ◌<◌, refl, sym, ap, ◌∙◌, inl, inr, arith, true, false, ◌&&◌, ◌||◌, List, [],
  ◌∷◌, ◌++◌, Option, none, some, leb, ◌==◌, if◌then◌else◌, Bool-cases, Option-cases, length, Bytes,
  codes, bytes_eq,
}
use vmod_wasm.Headers.Trailers.{lower, same_text}
use vmod_wasm.Headers.Wire.{Pair}
use vmod_wasm.Headers.Response.{
  lines_from, status_text, status_pair, pair_of_text, max_headers, line_pairs, pairs_of_lines,
  response_pairs, find_line, find_in_lines, find_header,
}
use vmod_wasm.Headers.Response.Lines.{
  IsKey, names_key, lower_colon, is_line_of-none, is_line_of-some, line_value, AllFilled,
  header_part,
}
use vmod_wasm.Headers.Response.Sizes.{line_pair-none, line_pair-some}
use vmod_wasm.Http.Numbers.{skip_blanks}
use vmod_wasm.Http.Upstream.{split_at}

-- The value of the first pair whose key is `key`, up to case.
abbrev pub pair_get : List Pair → Bytes → Option Bytes
pair_get [] key = none
pair_get ((k, v) ∷ ps) key =
    let rest = pair_get ps key in if length k == length key && same_text key k then some v else rest

find_line_lem :
    (ls : List Bytes) (count : ℕ) (key : Bytes)
    → IsKey key
    → AllFilled (header_part ls)
    → count + length (header_part ls) ≤ max_headers
    → find_line key ls ≡ pair_get (line_pairs count ls) key
unfolding find_line line_pairs
find_line_lem [] count key h filled room = refl
find_line_lem (l ∷ ls) count key h filled room = elim (Bool-cases (length l == 0)) [
  | inl empty ↦
      let stop : (leb max_headers count || length l == 0) ≡ true = ground arith in
      rw (stop, empty) refl
  | inr more ↦
      let filled2 = rw more at filled in
      let room2 = rw more at room in
      let go : (leb max_headers count || length l == 0) ≡ false = ground arith in
      elim (Option-cases (split_at b':' l)) [
        | inl no_colon ↦
            let same : count + 0 ≡ count = omega arith in
            rw (go, more, is_line_of-none key l h no_colon, line_pair-none l no_colon, same)
              (find_line_lem ls count key h filled2.1 (omega arith))
        | inr ((k, v), e) ↦
            let filled3 : 0 < length v = rw e at filled2.0 in
            let test = is_line_of-some key l k v h e filled3 in
            elim (Bool-cases (names_key key (some (k, v)))) [
              | inl hit ↦
                  rw (go, more, test, line_pair-some l k v e, hit)
                    (ap (λ t. some (skip_blanks t)) (line_value key l k v e (ground arith)))
              | inr miss ↦
                  rw (go, more, test, line_pair-some l k v e, miss)
                    (find_line_lem ls (count + 1) key h filled2.1 (omega arith))
            ]
      ]
]

same_text_status : (key : Bytes) → IsKey key → names_key key (some (codes ":status", [])) ≡ false
unfolding same_text
same_text_status [] h = refl
same_text_status (c ∷ key) (h, h0, hs) =
    let apart : (lower c == lower b':') ≡ false = lower_colon c h in ground arith

pair_get-status :
    (key : Bytes) (text : Option Bytes) (ps : List Pair)
    → IsKey key
    → pair_get (pair_of_text text ++ ps) key ≡ pair_get ps key
pair_get-status key none ps h = refl
pair_get-status key (some text) ps h = rw (same_text_status key h) refl

-- The header lines of a response: those between the status line and the first empty line.
abbrev pub header_lines : Bytes → List Bytes
header_lines raw = elim (lines_from [] raw) [ [] ↦ [] | status ∷ ls ↦ header_part ls ]

length-pair_of_text : (text : Option Bytes) → length (pair_of_text text) ≤ 1
length-pair_of_text none = omega arith
length-pair_of_text (some text) = omega arith

not_status : (key : Bytes) → IsKey key → bytes_eq key (codes ":status") ≡ false
not_status [] h = refl
not_status (c ∷ key) (h, h0, hs) = ground arith

find_in_lines_lem :
    (ls : List Bytes) (key : Bytes)
    → IsKey key
    → AllFilled (elim ls [ [] ↦ [] | status ∷ ls2 ↦ header_part ls2 ])
    → length (elim ls [ [] ↦ [] | status ∷ ls2 ↦ header_part ls2 ]) < max_headers
    → find_in_lines key ls ≡ pair_get (pairs_of_lines ls) key
find_in_lines_lem [] key h filled room = refl
find_in_lines_lem (status ∷ ls) key h filled room =
    let n : length (status_pair status) ≤ 1 = length-pair_of_text (status_text status) in
    rw (not_status key h) (
      find_line_lem ls (length (status_pair status)) key h filled (omega arith)
      ∙ sym (
          pair_get-status key (status_text status) (line_pairs (length (status_pair status)) ls) h))

-- For a key that has neither a colon nor a NUL, and a response of at most 63 header lines in which no
-- line ends at its first colon, the value that is found for the key is the value of the first listed
-- pair with that key, up to case, and there is none exactly where no pair has the key.
pub find_header-response_pairs :
    (raw key : Bytes)
    → IsKey key
    → AllFilled (header_lines raw)
    → length (header_lines raw) < max_headers
    → find_header raw key ≡ pair_get (response_pairs raw) key
unfolding find_header response_pairs
find_header-response_pairs raw key = find_in_lines_lem (lines_from [] raw) key
