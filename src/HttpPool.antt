-- ===== src/HttpPool.antt =====
-- src/http_pool.c and src/http_pool.h: the pool of connections to upstream HTTP servers.
pub mod Breaker
pub mod Addr
pub mod Dns
pub mod Conns
pub mod Cache
pub mod Pool
