-- ===== src/Soap.antt =====
-- src/soap_server: task.h and task.cpp (`Task`), task_manager.h and task_manager.cpp (`Manager`, and
-- `File` for its data file), and soap_server.cpp (`Server`, and
-- `Connection` for the texts and the connections). The rest are proofs.
pub mod Task
pub mod Manager
pub mod File
pub mod Server
pub mod Connection
pub mod Saved
pub mod Serving
pub mod Connected
pub mod Faults
pub mod Figures
pub mod Interleaved
mod Tests
mod Dialogues
