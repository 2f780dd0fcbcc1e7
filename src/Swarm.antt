-- ===== src/Swarm.antt =====
-- swarm: the other hubs, with cert/cert.go, and the sending side of hubnet.
pub mod Certs
pub mod Peers
pub mod Messages
pub mod Chain
pub mod Service
mod Trust
pub mod Presented
mod Boot
mod Tests
