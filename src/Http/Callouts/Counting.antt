-- ===== src/Http/Callouts/Counting.antt =====
-- The number of header lines that src/proxy_wasm_http.c keeps with a response.
use vmod_wasm.Base.{
  ℕ, zero, suc, ◌≤◌, ◌<◌, ◌≡◌, ◌≢◌, refl, ap, ◌∙◌, false, List, [], ◌∷◌, ◌++◌, ◌==◌, length,
  length-append, Bytes, arith,
}
use vmod_wasm.Http.Callouts.{skip_line, count_lines, count_headers}

-- A text without a newline.
abbrev pub IsLine : Bytes → Type 0
IsLine [] = Unit
IsLine (c ∷ cs) = (c ≢ 10) × IsLine cs

-- Lines as they follow the status line.
abbrev pub behind : List Bytes → Bytes
behind [] = []
behind (l ∷ ls) = 13 ∷ 10 ∷ (l ++ behind ls)

abbrev pub AreLines : List Bytes → Type 0
AreLines [] = Unit
AreLines (l ∷ ls) = (0 < length l) × IsLine l × AreLines ls

not_newline : (c : ℕ) → c ≢ 10 → (c == 10) ≡ false
not_newline c h = ground arith

skip_line_within : (l rest : Bytes) → IsLine l → skip_line (l ++ (13 ∷ 10 ∷ rest)) ≡ rest
skip_line_within [] rest h = refl
skip_line_within (c ∷ l) rest h = rw (not_newline c h.0) (skip_line_within l rest h.1)

skip_line_last : (l : Bytes) → IsLine l → skip_line (l ++ []) ≡ []
skip_line_last [] h = refl
skip_line_last (c ∷ l) h = rw (not_newline c h.0) (skip_line_last l h.1)

count_lines-cons :
    (fuel : ℕ) (b : Bytes)
    → 0 < length b
    → count_lines (suc fuel) b ≡ suc (count_lines fuel (skip_line b))
unfolding count_lines
count_lines-cons fuel [] h = absurd (ground arith)
count_lines-cons fuel (c ∷ b) h = refl

count_lines-behind :
    (fuel : ℕ) (l : Bytes) (ls : List Bytes)
    → AreLines (l ∷ ls)
    → length (l ++ behind ls) ≤ fuel
    → count_lines fuel (l ++ behind ls) ≡ suc (length ls)
unfolding count_lines
count_lines-behind zero l ls h f = absurd (omega (arith, f, h.0, length-append l (behind ls)))
count_lines-behind (suc fuel) l [] h f =
    count_lines-cons fuel (l ++ []) (omega (arith, h.0, length-append l []))
    ∙ ap (λ b. suc (count_lines fuel b)) (skip_line_last l h.1)
count_lines-behind (suc fuel) l (k ∷ ls) h f =
    count_lines-cons fuel (l ++ behind (k ∷ ls))
      (omega (arith, h.0, length-append l (behind (k ∷ ls))))
    ∙ (ap (λ b. suc (count_lines fuel b)) (skip_line_within l (k ++ behind ls) h.1)
        ∙ ap suc (
            count_lines-behind fuel k ls h.2 (omega (arith, f, length-append l (behind (k ∷ ls))))))

-- A header text of a status line and any number of header lines, none of them empty and none with a newline
-- in it, is counted as that many headers.
pub count_headers-behind :
    (status : Bytes) (ls : List Bytes)
    → IsLine status
    → AreLines ls
    → count_headers (status ++ behind ls) ≡ length ls
unfolding count_headers count_lines
count_headers-behind status [] s h = rw (skip_line_last status s) refl
count_headers-behind status (l ∷ ls) s h =
    rw (skip_line_within status (l ++ behind ls) s)
      (count_lines-behind (length (l ++ behind ls)) l ls h (omega arith))
