-- ===== src/Block.antt =====
-- pkg/block: the metadata of the blocks in a bucket.
pub mod Metas
pub mod Filters
pub mod Replicas
pub mod Duplicates
pub mod Fetcher
pub mod Marks
pub mod Deletion
pub mod Samples
mod Tests
