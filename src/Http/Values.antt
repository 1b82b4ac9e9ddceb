-- ===== src/Http/Values.antt =====
-- How src/proxy_wasm_http.c reads the headers of an upstream's response: pw_http_find_header_value and
-- pw_http_value_has_token. The headers are a C string.
pub mod Tokens
use vmod_wasm.Base.{
  ℕ, zero, suc, ◌+◌, Bool, true, false, ◌&&◌, ◌||◌, List, [], ◌∷◌, Option, none, some, ◌==◌,
  if◌then◌else◌, length, Bytes,
}
use vmod_wasm.Headers.Response.{lines_from}
use vmod_wasm.Headers.Trailers.{same_text}
use vmod_wasm.Http.Numbers.{is_blank, skip_blanks}
use vmod_wasm.Http.Upstream.{split_at}

-- The loop that moves the end of a text back over blanks.
unfoldable pub trim_end : Bytes → Bytes
trim_end [] = []
trim_end (c ∷ cs) =
    let rest = trim_end cs in if is_blank c && length rest == 0 then [] else c ∷ rest

-- The value in a line, where the line has the name.
abbrev pub line_value : Bytes → Bytes → Option Bytes
line_value name line = elim (split_at b':' line) [
  | none ↦ none
  | some (key, rest) ↦
      if length key == length name && same_text key name
      then some (trim_end (skip_blanks rest))
      else none
]

unfoldable pub find_value : Bytes → List Bytes → Option Bytes
find_value name [] = none
find_value name (l ∷ ls) =
    let rest = find_value name ls in
    if length l == 0
    then none
    else elim (line_value name l) [ none ↦ rest | some value ↦ some value ]

unfoldable pub find_header_value : Bytes → Bytes → Option Bytes
find_header_value headers name = elim (lines_from [] headers) [
  | [] ↦ none
  | status ∷ ls ↦ find_value name ls
]

abbrev pub is_separator : ℕ → Bool
is_separator c = is_blank c || c == b','

unfoldable pub skip_separators : Bytes → Bytes
skip_separators [] = []
skip_separators (c ∷ cs) = let rest = skip_separators cs in if is_separator c then rest else c ∷ cs

-- The text before the next comma, and the comma with what is behind it.
unfoldable pub take_field : Bytes → Bytes × Bytes
take_field [] = ([], [])
take_field (c ∷ cs) =
    let (field, rest) = take_field cs in if c == b',' then ([], c ∷ cs) else (c ∷ field, rest)

abbrev pub is_token : Bytes → Bytes → Bool
is_token token text = length text == length token && same_text text token

-- The rounds of the loop, none when there are no more than `fuel`.
unfoldable pub token_loop : ℕ → Bytes → Bytes → Option Bool
token_loop zero value token = none
token_loop (suc fuel) [] token = some false
token_loop (suc fuel) (c ∷ cs) token =
    let (field, rest) = take_field (skip_separators (c ∷ cs)) in
    let later = token_loop fuel rest token in
    if is_token token (trim_end field) then some true else later

-- One round for each byte and a last one are enough.
unfoldable pub value_has_token : Bytes → Bytes → Option Bool
value_has_token value token = token_loop (suc (length value)) value token
