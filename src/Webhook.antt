-- ===== src/Webhook.antt =====
-- src/webhook_example_server/main.cpp: `EventStore` (`Store`) and `HandleRequest` (`Server`). The rest
-- are proofs.
pub mod Store
pub mod Server
pub mod Latest
pub mod Listing
mod Tests
