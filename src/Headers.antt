-- ===== src/Headers.antt =====
-- src/proxy_wasm_headers.c: the header maps that a guest reads and writes.
pub mod Trailers
pub mod Wire
pub mod Maps
pub mod Response
pub mod Calls
