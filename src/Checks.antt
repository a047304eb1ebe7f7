-- ===== src/Checks.antt =====
-- internal/checks: failure classes, probe outcomes and the results of the checks.
pub mod FailureClass
pub mod Error
pub mod Classify
pub mod Result
pub mod Http
pub mod Verdict
pub mod Rpc
pub mod Rest
pub mod Grpc
pub mod GrpcTarget
pub mod GrpcWeb
pub mod Evm
pub mod Wss
pub mod Fetch
pub mod NodeInfoWire
pub mod IbcHash
