-- ===== src/Headers/Response/Sizes.antt =====
-- The size that is told for the headers of a callout's response.
use vmod_wasm.Base.{
  ℕ, ◌+◌, ◌*◌, ◌≡◌, refl, ◌∙◌, inl, inr, arith, ◌||◌, List, [], ◌∷◌, ◌++◌, Option, none, some, leb,
  ◌==◌, if◌then◌else◌, Bool-cases, Option-cases, length, length-append, Bytes, codes,
}
use vmod_wasm.Headers.Wire.{Pair, data_size, total_size}
use vmod_wasm.Headers.Maps.Sizes.{data_size-append}
use vmod_wasm.Headers.Response.{
  lines_from, status_text, pair_of_text, max_headers, line_pair, line_pairs, pairs_of_lines,
  response_pairs, size_loop, of_text, size_of_lines, response_headers_size,
}
use vmod_wasm.Http.Numbers.{skip_blanks}
use vmod_wasm.Http.Upstream.{split_at}

-- A count and a size, enlarged by pairs.
enlarge : ℕ × ℕ → List Pair → ℕ × ℕ
enlarge (count, size) ps = (count + length ps, size + (length ps * 8 + data_size ps))

pair_eq : {a b c d : ℕ} → a ≡ c → b ≡ d → ◌≡◌ {A = ℕ × ℕ} (a, b) (c, d)
pair_eq p q = rw (p, q) refl

-- What follows the pair of a line in both loops.
enlarge_step :
    (count size n d : ℕ) (here ps : List Pair) (x : ℕ × ℕ)
    → length here ≡ n
    → data_size here ≡ d
    → x ≡ enlarge (count + n, size + (8 * n + d)) ps
    → x ≡ enlarge (count, size) (here ++ ps)
unfolding enlarge
enlarge_step count size n d here ps x hn hd e =
    e
    ∙ pair_eq (omega (arith, length-append here ps))
        (omega (arith, length-append here ps, data_size-append here ps))

pub line_pair-none : (l : Bytes) → split_at b':' l ≡ none → line_pair l ≡ []
unfolding line_pair
line_pair-none l e = rw (e, line_pair) refl

pub line_pair-some :
    (l key rest : Bytes)
    → split_at b':' l ≡ some (key, rest)
    → line_pair l ≡ (key, skip_blanks rest) ∷ []
unfolding line_pair
line_pair-some l key rest e = rw (e, line_pair) refl

size_loop_lem :
    (ls : List Bytes) (count size : ℕ)
    → size_loop count size ls ≡ enlarge (count, size) (line_pairs count ls)
unfolding size_loop line_pairs enlarge
size_loop_lem [] count size = pair_eq (omega arith) (omega arith)
size_loop_lem (l ∷ ls) count size = elim (Bool-cases (leb max_headers count || length l == 0)) [
  | inl stop ↦ rw stop (pair_eq (omega arith) (omega arith))
  | inr go ↦ elim (Option-cases (split_at b':' l)) [
    | inl no_colon ↦
        let same : count + 0 ≡ count = omega arith in
        rw (go, no_colon, line_pair-none l no_colon, same) (size_loop_lem ls count size)
    | inr ((key, rest), e) ↦
        rw (go, e, line_pair-some l key rest e)
          (enlarge_step count size 1 (length key + 1 + (length (skip_blanks rest) + 1))
            ((key, skip_blanks rest) ∷ []) (line_pairs (count + 1) ls) _ refl (omega arith)
            (size_loop_lem ls (count + 1)
                (size + (8 + length key + 1 + length (skip_blanks rest) + 1))
              ∙ pair_eq (omega arith) (omega arith)))
  ]
]

-- The status line, for the text that is found in it.
status_lem :
    (ls : List Bytes) (text : Option Bytes)
    → size_loop (of_text text).0 (of_text text).1 ls
      ≡ enlarge (0, 4) (pair_of_text text ++ line_pairs (length (pair_of_text text)) ls)
unfolding enlarge
status_lem ls none = size_loop_lem ls 0 4
status_lem ls (some text) =
    enlarge_step 0 4 1 (7 + 1 + (length text + 1)) ((codes ":status", text) ∷ []) (line_pairs 1 ls)
      _ refl (omega arith)
      (size_loop_lem ls 1 (4 + (8 + 7 + 1 + length text + 1)) ∙ pair_eq (omega arith) (omega arith))

size_of_lines_lem : (ls : List Bytes) → size_of_lines ls ≡ enlarge (0, 4) (pairs_of_lines ls)
unfolding enlarge
size_of_lines_lem [] = pair_eq (omega arith) (omega arith)
size_of_lines_lem (status ∷ ls) = status_lem ls (status_text status)

-- The size that is told for the headers of a response is the size of the serialized pairs, `total_size`,
-- where there is a pair, and 0 where there is none.
pub response_headers_size-response_pairs :
    (raw : Bytes)
    → response_headers_size raw
      ≡ (if length (response_pairs raw) == 0 then 0 else total_size (response_pairs raw))
unfolding response_headers_size response_pairs enlarge
response_headers_size-response_pairs raw =
    let ps = pairs_of_lines (lines_from [] raw) in
    let n : 0 + length ps ≡ length ps = omega arith in
    let d : 4 + (length ps * 8 + data_size ps) ≡ total_size ps = omega arith in
    rw (size_of_lines_lem (lines_from [] raw), n, d) refl
