-- ===== src/Contract.antt =====
-- fabric/courier/contractlib/type.go, a copy of which is fabric/chaincode/chaincode_example02/go/type.go:
-- the contracts that the chaincode stores and the courier follows, with their JSON form.
pub mod Status
pub mod Defs
pub mod Json
pub mod Sample
mod Tests
