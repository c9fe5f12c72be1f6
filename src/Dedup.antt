-- ===== src/Dedup.antt =====
-- pkg/dedup/iter.go: the deduplication of the replicas of a series by a querier.
pub mod Iter
pub mod Series
mod Tests
