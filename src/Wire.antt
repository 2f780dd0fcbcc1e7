-- ===== src/Wire.antt =====
-- hubnet/rlpx.go, hubnet/message.go and hubnet/handle.go: messages of the peer-to-peer protocol as
-- frames of bytes on a stream. The package rlp and the two ends of a stream are parameters.
pub mod Stream
pub mod Frame
pub mod Roundtrip
pub mod Faults
mod Tests
