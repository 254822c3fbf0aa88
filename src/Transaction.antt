-- ===== src/Transaction.antt =====
-- The transactions of artifact-layer/src/transaction.
pub mod Action
pub mod Meta
pub mod Manager
pub mod Commit
pub mod WriteExecutor
pub mod ContextRef
pub mod Conflict
pub mod ConflictDetail
mod Scenario
mod Tests
mod ManagerTests
