-- ===== src/Compact.antt =====
-- pkg/compact: the compactor: the planners, and the cleaning of the bucket.
pub mod Planner
pub mod SizeFilter
pub mod Cleaning
mod Tests
