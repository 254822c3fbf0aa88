-- ===== src/Id.antt =====
-- The ID allocator: its service, under id-allocator/id-allocator-service/src, and its C++ client,
-- under id-allocator/id-allocator-client-cpp/src.
pub mod Format
pub mod SuperBlock
pub mod Partition
pub mod Expected
pub mod Store
pub mod Allocator
pub mod Manager
pub mod Service
pub mod Client
mod Tests
