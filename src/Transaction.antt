-- ===== src/Transaction.antt =====
-- core/: cross transactions and receipt transactions, the bytes that are hashed, and their signatures.
pub mod Crypto
pub mod Ctx
pub mod Rtx
pub mod Sender
pub mod Preimage
pub mod Statuses
pub mod Tests
