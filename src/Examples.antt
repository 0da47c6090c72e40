-- ===== src/Examples.antt =====
-- examples: the parts of the example programs that are code of their own.
pub mod FileHandler
pub mod Serial
pub mod Sockets
pub mod Mqtt
pub mod Jobs
pub mod Reading
pub mod UrcReady
pub mod SysTimer
pub mod ExtPin
mod Tests
