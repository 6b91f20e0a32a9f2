-- ===== src/Rpc.antt =====
-- src/json_rpc_server: secret_data_manager.h and secret_data_manager.cpp (`Secrets`, and what it
-- registers, `Schemas` and `Methods`), method_registry.h and method_registry.cpp (`Registry`),
-- session.cpp (`Session`), server.cpp (`Server`), and the JSON of the answers (`Results`). `Conforming` says what a schema asks
-- of a value. The rest are proofs.
pub mod Secrets
pub mod Registry
pub mod Session
pub mod Schemas
pub mod Methods
pub mod Results
pub mod Messages
pub mod Explained
pub mod Answers
pub mod Access
pub mod Keeping
pub mod Conforming
pub mod Fitting
pub mod Expected
pub mod Typed
pub mod Server
pub mod Following
mod Values
mod Tests
