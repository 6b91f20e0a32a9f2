-- ===== src/Auction.antt =====
-- src/websocket_auction_server: auction_manager.h and auction_manager.cpp. `Types` has the state,
-- `AutoBid` the loop of `ApplyAutoBids`, `Manager` the public operations; the rest are proofs.
pub mod Types
pub mod AutoBid
pub mod Manager
pub mod Loop
pub mod Stable
pub mod History
pub mod Invariant
pub mod Preserve
pub mod Reachable
pub mod Settlement
pub mod Termination
pub mod Divergence
pub mod Views
pub mod Bidding
pub mod Session
pub mod Server
mod Tests
