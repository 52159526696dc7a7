-- ===== src/Core.antt =====
-- The orchestrator of the firmware
-- (perceptive-layer/mqtt_protobuff/governance_core/src/governance_core.cpp), a module for each group
-- of its functions.
pub mod Boot
pub mod Publish
pub mod Errors
pub mod Audit
pub mod Loop
pub mod Power
pub mod Tasks
