-- ===== src/Http/Numbers.antt =====
-- The numbers that src/proxy_wasm_http.c parses: pw_http_parse_size and pw_http_parse_port. A `size_t`
-- has 64 bits.
pub mod Sizes
use vmod_wasm.Base.{
  ℕ, zero, suc, ◌+◌, ◌-◌, ◌*◌, ◌/◌, ◌^◌, Bool, true, false, not, ◌&&◌, ◌||◌, List, [], ◌∷◌, Option,
  none, some, ltb, leb, ◌==◌, if◌then◌else◌, length, Bytes,
}

abbrev pub size_max : ℕ
size_max = 2 ^ 64 - 1

abbrev pub is_blank : ℕ → Bool
is_blank c = c == b' ' || c == 9

unfoldable pub skip_blanks : Bytes → Bytes
skip_blanks [] = []
skip_blanks (c ∷ cs) = let rest = skip_blanks cs in if is_blank c then rest else c ∷ cs

-- The loop over the digits: `value` so far and whether there was a digit. `none` is -1.
unfoldable pub parse_digits : ℕ → Bool → Bytes → Option ℕ
parse_digits value digits [] = if not digits then none else some value
parse_digits value digits (c ∷ cs) =
    let rest = parse_digits (value * 10 + (c - b'0')) true cs in
    if is_blank c
    then if length (skip_blanks cs) == 0 then if not digits then none else some value else none
    else if ltb c b'0' || ltb b'9' c
    then none
    else if ltb ((size_max - (c - b'0')) / 10) value
    then none
    else rest

unfoldable pub parse_size : Bytes → Option ℕ
unfolding skip_blanks parse_digits
parse_size s = parse_digits 0 false (skip_blanks s)

unfoldable pub port_digits : ℕ → Bytes → Option ℕ
port_digits value [] = if value == 0 then none else some value
port_digits value (c ∷ cs) =
    let next = value * 10 + (c - b'0') in
    let rest = port_digits next cs in
    if ltb c b'0' || ltb b'9' c then none else if ltb 65535 next then none else rest

unfoldable pub parse_port : Bytes → Option ℕ
unfolding port_digits
parse_port s = if length s == 0 then none else port_digits 0 s
