-- ===== src/Device/Ending.antt =====
-- power.rs, client.rs: on a board whose loops end, and on which the power pin is connected, no
-- operation of the device panics or runs on for ever.
pub mod Polling
pub mod Powering
pub mod Spinning
