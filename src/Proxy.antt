-- ===== src/Proxy.antt =====
-- src/proxy_wasm.c: host calls on metrics, on body buffers and on what guests share.
pub mod Metrics
pub mod Bodies
pub mod Sharing
