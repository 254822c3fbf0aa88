-- ===== src/Index.antt =====
-- The indexes of artifact-layer/src/index.
pub mod Cell
pub mod Rows
pub mod Deltas
pub mod Merge
mod Tests
