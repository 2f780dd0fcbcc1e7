-- ===== src/Api.antt =====
-- api: the pages of both index databases, as the RPC gives them.
pub mod Content
mod Slices
mod Tests
