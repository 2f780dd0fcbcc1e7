-- ===== src/Courier/Sync.antt =====
-- The block sync of the courier: fabric/courier/syncer.go and filter.go.
pub mod Filter
pub mod Blocks
pub mod Entry
pub mod Chosen
pub mod Faults
pub mod Order
pub mod Passed
pub mod Restart
pub mod Parse
mod Tests
