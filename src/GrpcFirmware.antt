-- ===== src/GrpcFirmware.antt =====
-- The firmware over HTTP/2 (perceptive-layer/grpc/grpc_only/main): an earlier line of the managers, with
-- one last error in place of a queue, around the GrpcManager.
pub mod State
pub mod Ota
pub mod Command
pub mod Crypto
pub mod Main
pub mod Reports
pub mod Audit
pub mod Loop
