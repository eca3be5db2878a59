-- ===== src/Cache.antt =====
-- internal/cache: the interface (interface.go), its metrics (metrics.go) and its two drivers. Timeouts
-- of a context are among the errors that a call is answered with; spans and latencies are left out.
pub mod Interface
pub mod Metrics
pub mod Valkey
pub mod Memcached
pub mod Drivers
pub mod Laws
pub mod Remembers
pub mod Collapse
