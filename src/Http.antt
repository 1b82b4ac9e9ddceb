-- ===== src/Http.antt =====
-- src/proxy_wasm_http.c: the outgoing HTTP calls of a Wasm module.
pub mod Tokens
pub mod Numbers
pub mod Upstream
pub mod Values
pub mod Requests
pub mod Replies
pub mod Dialing
pub mod Callouts
