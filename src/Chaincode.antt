-- ===== src/Chaincode.antt =====
-- fabric/chaincode/chaincode_example02/go: the chaincode that holds balances and cross-chain contracts
-- on the Fabric ledger. The shim, encoding/json, strconv and the certificate parser are parameters.
pub mod Stub
pub mod Transfer
pub mod Commit
pub mod Entry
pub mod Conservation
pub mod Replay
mod Tests
