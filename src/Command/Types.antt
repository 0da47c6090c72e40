-- ===== src/Command/Types.antt =====
-- ublox-cellular/src/command: the argument and parameter types of the command modules, one data
-- type to an enum, with the numbers that the enums give their variants.
mod Text
mod NetworkService
mod Psn
mod PsnRegistration
mod MobileControl
mod Control
mod Gpio
mod Security
mod Small
pub use Text.*
unfoldable pub use NetworkService.*
unfoldable pub use Psn.*
unfoldable pub use PsnRegistration.*
unfoldable pub use MobileControl.*
unfoldable pub use Control.*
unfoldable pub use Gpio.*
unfoldable pub use Security.*
unfoldable pub use Small.*
