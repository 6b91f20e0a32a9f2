-- ===== src/Chat.antt =====
-- src/long_polling_chat_server: chat_manager.h and chat_manager.cpp (`Manager`), and of main.cpp the
-- handlers (`Handlers`), the numbers of a query (`Query`) and the routes (`Server`).
-- `Keys` has the keys that are drawn. The rest are proofs.
pub mod Manager
pub mod Valid
pub mod Reachable
pub mod Reading
pub mod Query
pub mod Keys
pub mod Handlers
pub mod Serving
pub mod Server
pub mod Polling
pub mod Turns
pub mod Attended
pub mod Outside
mod Tests
mod Talk
