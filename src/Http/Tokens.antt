-- ===== src/Http/Tokens.antt =====
-- The character tests of src/proxy_wasm_http.c: pw_http_is_token_char, pw_http_has_line_ctl,
-- pw_http_host_ok, pw_http_method_ok, pw_http_path_ok, pw_http_header_name_ok and
-- pw_http_header_value_ok, and pw_http_append_header, which guards the request's header block.
pub mod Lines
pub mod Hosts
use vmod_wasm.Base.{
  ℕ, ◌+◌, ◌-◌, Bool, true, false, not, ◌&&◌, ◌||◌, List, [], ◌∷◌, ◌++◌, Option, none, some, ltb,
  leb, ◌==◌, if◌then◌else◌, length, Bytes,
}

unfoldable pub is_token_char : ℕ → Bool
is_token_char c =
    if leb b'0' c && leb c b'9'
    then true
    else if leb b'A' c && leb c b'Z'
    then true
    else if leb b'a' c && leb c b'z'
    then true
    else c == b'!'
      || (c == b'#'
          || (c == b'$'
              || (c == b'%'
                  || (c == b'&'
                      || (c == 39
                          || (c == b'*'
                              || (c == b'+'
                                  || (c == b'-'
                                      || (c == b'.'
                                          || (c == b'^'
                                              || (c == b'_'
                                                  || (c == b'`'
                                                      || (c == b'|' || c == b'~')))))))))))))

unfoldable pub has_line_ctl : Bytes → Bool
has_line_ctl [] = false
has_line_ctl (c ∷ cs) = if c == 0 || (c == 13 || c == 10) then true else has_line_ctl cs

abbrev is_host_char : ℕ → Bool
is_host_char c = not (leb c 32 || (leb 127 c || c == b'/'))

abbrev is_path_char : ℕ → Bool
is_path_char c = not (leb c 32 || leb 127 c)

abbrev is_value_char : ℕ → Bool
is_value_char c =
    not (c == 0 || (c == 13 || (c == 10 || c == 127))) && not (ltb c 32 && not (c == 9))

abbrev pub every : (ℕ → Bool) → Bytes → Bool
every p [] = true
every p (c ∷ cs) = if not (p c) then false else every p cs

unfoldable pub host_ok : Bytes → Bool
host_ok s = not (length s == 0) && every is_host_char s

unfoldable pub method_ok : Bytes → Bool
unfolding is_token_char
method_ok s = not (length s == 0) && every is_token_char s

unfoldable pub path_ok : Bytes → Bool
path_ok s = not (length s == 0) && every is_path_char s

unfoldable pub header_name_ok : Bytes → Bool
unfolding is_token_char
header_name_ok s = not (length s == 0) && every is_token_char s

unfoldable pub header_value_ok : Bytes → Bool
header_value_ok s = every is_value_char s

abbrev pub int_max : ℕ
int_max = 2147483647

abbrev pub crlf : Bytes
crlf = 13 ∷ 10 ∷ []

abbrev pub header_line : Bytes → Bytes → Bytes
header_line key value = key ++ (b':' ∷ b' ' ∷ (value ++ crlf))

-- `dst` holds the text so far, `dst_sz` is the size of its buffer; `none` is -1. `snprintf` fails on
-- a text longer than INT_MAX.
unfoldable pub append_header : ℕ → Bytes → Bytes → Bytes → Option Bytes
unfolding header_name_ok header_value_ok
append_header dst_sz dst key value =
    let line = header_line key value in
    if not (header_name_ok key) || not (header_value_ok value)
    then none
    else if ltb int_max (length key) || ltb int_max (length value)
    then none
    else if leb dst_sz (length dst)
    then none
    else if ltb int_max (length line) || leb (dst_sz - length dst) (length line)
    then none
    else some (dst ++ line)
