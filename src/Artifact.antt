-- ===== src/Artifact.antt =====
-- The artifacts of artifact-layer/src/artifact.
pub mod Stored
pub mod Referencing
pub mod Deletes
pub mod References
mod Tests
