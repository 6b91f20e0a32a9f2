-- ===== src/Sse.antt =====
-- src/sse_example_server/main.cpp: the writes of a connection (`Stream`). The rest are proofs.
pub mod Stream
pub mod Sent
mod Tests
