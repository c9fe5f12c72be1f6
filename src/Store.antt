-- ===== src/Store.antt =====
-- pkg/store: the store gateway.
pub mod Partitioner
pub mod PostingsCodec
pub mod BlockSet
pub mod Limiter
pub mod BigEndian
