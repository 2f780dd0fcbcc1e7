-- ===== src/IndexDb.antt =====
-- database: the index of cross transactions of a chain.
pub mod Indexed
pub mod Reads
mod Coherence
pub mod Writes
pub mod Query
pub mod Paging
mod Rollback
mod Upkeep
mod Turns
mod History
mod HistoryTests
pub mod Tests
