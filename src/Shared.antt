-- ===== src/Shared.antt =====
-- src/proxy_wasm_shared.c and src/proxy_wasm_shared.h: what the instances of a module share.
pub mod SharedData
pub mod Queues
