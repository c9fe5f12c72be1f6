-- ===== src/Cache.antt =====
-- pkg/cache/inmemory.go and pkg/store/cache: the caches in memory.
pub mod Lru
pub mod Sized
pub mod Index
pub mod Ttl
pub mod Subranges
mod Tests
