-- ===== src/Network/Watch.antt =====
-- network.rs: `check_registration_state`, `update_registration` and `check_running_imsi`.
use fibocom_cellular_rs.Prelude.{
  ℕ, ◌&&◌, ◌||◌, Bool, true, false, Option, none, some, leb, if◌then◌else◌,
}
use fibocom_cellular_rs.Command.{Command, MobileControl, NetworkService, Psn, General}
use fibocom_cellular_rs.Error.{NetworkError}
use fibocom_cellular_rs.Env.{Env, Duration, ticks}
use fibocom_cellular_rs.Effect.{either, M, ◌>>=◌, ◌>>◌, pure, get, when, ignore, attempt, now}
use fibocom_cellular_rs.Registration.{
  ConnectionState, connection_state_eq, registered, reset, set_connection_state, compare_and_set,
  checked_duration_since, params_of_creg, params_of_cgreg, params_of_cereg,
}
use fibocom_cellular_rs.Network.State.{Network, on_status, modify_status}
use fibocom_cellular_rs.Network.Urcs.{send_internal}

-- Whether at `ts` at least `d` has passed since `since`; `default` where that cannot be told.
unfoldable pub has_passed : Env → Duration → Bool → Option ℕ → ℕ → Bool
has_passed env d default none ts = default
has_passed env d default (some since) ts = elim (checked_duration_since ts since) [
  | none ↦ default
  | some dur ↦ leb (ticks env d) dur
]

-- CHECK_IMSI_TIMEOUT
abbrev pub check_imsi_timeout : Duration
check_imsi_timeout = Duration.secs 60

-- (CSD and PSD) or EPS
unfoldable pub has_service : Network → Bool
has_service n = (registered n.status.csd && registered n.status.psd) || registered n.status.eps

module _ (env : Env) where
  unfoldable pub check_registration_state : {E : Type 0} → M Network E (Unit {0})
  unfolding connection_state_eq has_service
  check_registration_state = do
    n ← get
    if connection_state_eq n.status.conn_state ConnectionState.disconnected
        then pure tt
        else if has_service n
        then modify_status (set_connection_state ConnectionState.connected)
        else when (connection_state_eq n.status.conn_state ConnectionState.connected) (do
          on_status (reset env)
          modify_status (set_connection_state ConnectionState.connecting))

  -- `if let Ok(reg) = self.send_internal(..) { self.status.compare_and_set(reg.into()) }`, for each
  -- of the three reports.
  unfoldable pub update_creg : M Network NetworkError (Unit {0})
  update_creg = do
    creg ← attempt (
        send_internal env (Command.network_service NetworkService.get_network_registration_status)
          false)
    either (λ _. pure tt) (λ reg. on_status (compare_and_set env (params_of_creg reg))) creg

  unfoldable pub update_cgreg : M Network NetworkError (Unit {0})
  update_cgreg = do
    cgreg ← attempt (send_internal env (Command.psn Psn.get_gprs_network_registration_status) false)
    either (λ _. pure tt) (λ reg. on_status (compare_and_set env (params_of_cgreg reg))) cgreg

  unfoldable pub update_cereg : M Network NetworkError (Unit {0})
  update_cereg = do
    cereg ← attempt (send_internal env (Command.psn Psn.get_eps_network_registration_status) false)
    either (λ _. pure tt) (λ reg. on_status (compare_and_set env (params_of_cereg reg))) cereg

  unfoldable pub update_registration : M Network NetworkError (Unit {0})
  update_registration = do
    ignore
        (send_internal env (Command.mobile_control MobileControl.get_extended_error_report) false)
    update_creg
    update_cgreg
    update_cereg

  unfoldable pub check_running_imsi : M Network NetworkError (Unit {0})
  unfolding has_passed
  check_running_imsi = do
    ts ← now env
    n ← get
    when (has_passed env check_imsi_timeout true n.status.imsi_check_time ts) (do
      cimi ← attempt (send_internal env (Command.general General.get_cimi) false)
      either (λ _. send_internal env Command.at false) (λ _. pure tt) cimi
      modify_status (λ s. record s { imsi_check_time = some ts }))
