-- ===== src/Memcache.antt =====
-- src/Protocols/Memcache: the memcache client.
pub mod Header
pub mod Client
pub mod Stats
