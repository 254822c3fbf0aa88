-- ===== src/Storage.antt =====
-- The storage layer of artifact-layer/src/storage.
pub mod Status
pub mod State
pub mod Views
pub mod Memory
pub mod Invariant
pub mod Numerals
pub mod MergeBase
pub mod ThreeWay
pub mod Merge
pub mod Interface
pub mod History
mod Tests
