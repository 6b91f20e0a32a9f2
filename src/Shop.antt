-- ===== src/Shop.antt =====
-- src/grpc_server: ecommerce.proto, in_memory_storage.h and in_memory_storage.cpp (`Storage`), and
-- ecommerce_service_impl.cpp (`Service`). The rest are proofs.
pub mod Storage
pub mod Types
pub mod Mirror
pub mod Calls
pub mod Links
pub mod Unlink
pub mod Linked
pub mod Roundtrip
pub mod Paging
pub mod Replies
pub mod Service
mod Tests
