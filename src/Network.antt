-- ===== src/Network.antt =====
-- ublox-cellular/src/network.rs: sending a command over the AT client, and keeping the module
-- registered. An operation is an action on the state and the log of `Effect`.
pub mod Tests
pub mod Settled
pub mod Ending
pub mod Sound
pub mod Reachable
pub mod Reaching
pub mod Watched
pub mod Limits
pub mod Silence
pub mod Polling
pub mod Intervening
pub mod Timeouts
pub mod State
pub mod Urcs
pub mod Watch
pub mod Intervene
pub mod Events
pub use State.{ContextState, AtTx, Network, saturating_add, on_at_tx, on_status, modify_status}
unfoldable pub use State.{
  context_state_eq, new, attempts, network_error, send, send_ignore_timeout, is_connected,
  reset_reg_time,
}
unfoldable pub use Urcs.{apply_urc, handle_urc, send_internal}
unfoldable pub use Watch.{check_registration_state, update_registration, check_running_imsi}
unfoldable pub use Intervene.{intervene_registration}
unfoldable pub use Events.{process_events}
