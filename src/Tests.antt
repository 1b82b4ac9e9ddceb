-- ===== src/Tests.antt =====
-- Runs of the code's functions, and applications of the theorems, at concrete inputs.
pub mod Breakers
pub mod Conns
pub mod Caches
pub mod Stores
pub mod Requests
pub mod Schedules
pub mod Guests
pub mod HeaderMaps
pub mod Proxies
pub mod Handoffs
pub mod Callouts
pub mod Deliveries
