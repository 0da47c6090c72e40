-- ===== src/Network/Events.antt =====
-- network.rs: `process_events`.
use fibocom_cellular_rs.Prelude.{◌&&◌, true, false, some, ltb, if◌then◌else◌}
use fibocom_cellular_rs.Error.{NetworkError, GenericError}
use fibocom_cellular_rs.Env.{Env, Duration}
use fibocom_cellular_rs.Effect.{M, ◌>>=◌, ◌>>◌, throw, get, when, ignore, modify, now}
use fibocom_cellular_rs.Registration.{ConnectionState, connection_state_eq}
use fibocom_cellular_rs.Network.State.{Network, modify_status}
use fibocom_cellular_rs.Network.Urcs.{handle_urc}
use fibocom_cellular_rs.Network.Watch.{
  has_passed, check_registration_state, update_registration, check_running_imsi,
}
use fibocom_cellular_rs.Network.Intervene.{intervene_registration}

-- REGISTRATION_CHECK_INTERVAL
abbrev pub registration_check_interval : Duration
registration_check_interval = Duration.secs 15

-- REGISTRATION_TIMEOUT
abbrev pub registration_timeout : Duration
registration_timeout = Duration.secs 180

module _ (env : Env) where
  -- The poll of the registration, once per interval, and the test for a timeout behind it.
  unfoldable pub poll_registration : M Network NetworkError (Unit {0})
  poll_registration = do
    ts ← now env
    n ← get
    when (has_passed env registration_check_interval true n.status.reg_check_time ts) (do
      modify_status (λ s. record s { reg_check_time = some ts })
      update_registration env
      ts' ← now env
      n' ← get
      when
          (connection_state_eq n'.status.conn_state ConnectionState.connecting
            && has_passed env registration_timeout false n'.status.reg_start_time ts')
          (throw (NetworkError.generic GenericError.timeout)))

  unfoldable pub process_events : M Network NetworkError (Unit {0})
  process_events = do
    n ← get
    if ltb 10 n.at_tx.consecutive_timeouts
        then (do
          modify (λ m. record m { at_tx = record { consecutive_timeouts = 0 } })
          throw (NetworkError.generic GenericError.timeout))
        else (do
          ignore (handle_urc env)
          check_registration_state env
          intervene_registration env
          ignore (check_running_imsi env)
          poll_registration)
