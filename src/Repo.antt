-- ===== src/Repo.antt =====
-- repo: the configuration of a node.
pub mod Order
pub mod Addresses
pub mod Network
pub mod Files
pub mod Sorted
pub mod Numbers
pub mod Members
pub mod Loading
pub mod Others
mod Agreement
mod Local
mod Again
pub mod Tests
pub mod AgainTests
