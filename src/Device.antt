-- ===== src/Device.antt =====
-- The device: ublox-cellular/src/client.rs, power.rs and module_timing.rs.
pub mod State
pub mod Timing
pub mod Power
pub mod Transcript
mod Tests
pub mod Initialized
pub mod Reset
pub mod Sim
pub mod Setup
pub mod Spin
pub mod Ready
pub mod Ending
pub mod Reaching
