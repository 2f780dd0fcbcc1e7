-- ===== src/Courier.antt =====
-- fabric/courier: the relay between a Fabric channel and the other chain.
mod Tx
mod Store
mod Query
mod Laws
mod Step
mod Loop
mod Receipts
mod Advance
mod Replays
mod Queue
mod Relay
mod Accounted
mod Kinds
mod Manager
mod Rounds
mod Sending
mod Queueing
mod Marking
mod Receive
mod ManagerTests
mod Sample
mod RelayTests
mod Tests
mod Sync
