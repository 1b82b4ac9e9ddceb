-- ===== src/Tests/Requests.antt =====
-- Headers, numbers and upstreams at concrete texts.
use vmod_wasm.Base.{◌≡◌, refl, false, [], ◌∷◌, ◌++◌, none, some, arith, Bytes, codes}
use vmod_wasm.Base.Decimal.{decimal}
use vmod_wasm.Http.Tokens.{host_ok, header_name_ok, header_value_ok, header_line}
use vmod_wasm.Http.Upstream.{parse_upstream}
use vmod_wasm.Http.Upstream.RoundTrip.{parse_upstream-print}
use vmod_wasm.Http.Values.{value_has_token}
use vmod_wasm.Http.Values.Tokens.{items_of, any_token, value_has_token-any_token}
use vmod_wasm.Headers.Wire.{serialize}
use vmod_wasm.Memory.{Guest, validate_region}
use vmod_wasm.Http.Requests.{
  Request, take_text, header_step, read_headers, request_of, request_text, build_request,
}
use vmod_wasm.Http.Requests.Blocks.{IsClean, build_request-IsClean}
use vmod_wasm.Http.Tokens.{is_token_char, method_ok, path_ok, append_header}

abbrev host : Bytes
host = codes "api.test"

abbrev request : Bytes
request = codes "GET / HTTP/1.1"

abbrev key : Bytes
key = codes "accept"

abbrev value : Bytes
value = codes "text/html"

parse_upstream-print_example :
    parse_upstream 256 (host ++ (b':' ∷ decimal 8080)) ≡ some (host, 8080)
unfolding host_ok decimal
parse_upstream-print_example =
    parse_upstream-print 256 host 8080 refl refl (omega arith) (omega arith) (omega arith)

value_has_token-any_token_example :
    value_has_token (codes "close ,, Keep-Alive") (codes "keep-alive")
    ≡ some (any_token (codes "keep-alive") (items_of (codes "close ,, Keep-Alive")))
value_has_token-any_token_example =
    value_has_token-any_token (codes "close ,, Keep-Alive") (codes "keep-alive") (omega arith)

-- One header "a: b" in the memory of a guest.
abbrev with_headers : Guest
with_headers = record { memory = some (serialize ((codes "a", codes "b") ∷ [])); allocator = none }

abbrev get_request : Request
get_request = record {
  method = codes "GET";
  path = codes "/";
  extra = header_line (codes "a") (codes "b");
}

build_request-IsClean_example :
    IsClean (codes "host") false 0 (request_text (codes "host") false 0 get_request)
unfolding serialize build_request request_of read_headers take_text header_step append_header
    method_ok path_ok header_name_ok header_value_ok is_token_char validate_region
build_request-IsClean_example =
    build_request-IsClean with_headers (codes "host") false 0 16 0 0
      (request_text (codes "host") false 0 get_request) refl
