-- ===== src/Encoding.antt =====
-- artifact-layer/src/encoding: base64url, varints and the paths of artifacts and indexes.
pub mod Base64Url
pub mod Varint
pub mod Path
mod Tests
