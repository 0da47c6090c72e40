-- ===== src/Command/Responses.antt =====
-- ublox-cellular/src/command: the response structs of the command modules. A text or a byte string
-- is its bytes, without the source's bound on its length.
mod Registration
mod Module
mod Transfer
pub use Registration.*
pub use Module.*
pub use Transfer.*
