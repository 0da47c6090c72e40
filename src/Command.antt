-- ===== src/Command.antt =====
-- ublox-cellular/src/command: the AT commands with their arguments, their responses and the
-- unsolicited result codes. The texts on the wire are written and read by the `atat` crate's
-- derive macros and are not part of the model.
mod Types
mod Responses
mod Unsolicited
mod Request
mod Declared
pub mod Codes
pub mod Profile
pub mod Limits
pub mod Lengths
mod Tests
pub use Types.*
pub use Responses.*
pub use Unsolicited.*
pub use Request.*
pub use Declared.*
unfoldable pub use Types.{network_stat_code, gprs_stat_code, eps_stat_code}
