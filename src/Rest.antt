-- ===== src/Rest.antt =====
-- src/rest_server/main.cpp: the class `Database` (`Database`) and the handlers of the library's API
-- (`Handlers`, and `Query` for the text of a query), the JSON of the responses (`Documents`) and the
-- routes (`Server`). The rest are proofs.
pub mod Database
pub mod Consistent
pub mod Paging
pub mod Query
pub mod Documents
pub mod Server
pub mod Kept
pub mod Serving
pub mod Roundtrip
pub mod Handlers
pub mod Replies
mod Tests
