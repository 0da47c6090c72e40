-- ===== src/Registration.antt =====
-- ublox-cellular/src/registration.rs: what the driver knows of the module's registration in the
-- circuit switched (CSD), packet switched (PSD) and evolved packet (EPS) domains.
pub mod Domain
pub mod Params
pub mod State
pub mod Timing
pub mod Codes
pub mod Update
mod Tests
pub use Domain.{Status, CellularRegistrationStatus, new_status, checked_duration_since}
unfoldable pub use Domain.{
  status_eq, status_of_code, duration, reset_status, set_status, is_registered, registered, sticky,
}
pub use Params.{RegType, RegistrationParams}
unfoldable pub use Params.{params_of_creg, params_of_cgreg, params_of_cereg}
pub use State.{ConnectionState, CellularGlobalIdentity, RegistrationState}
unfoldable pub use State.{
  connection_state_eq, new, reset_statuses, reset, set_connection_state, compare_and_set,
}
