-- ===== src/Network/Intervene.antt =====
-- network.rs: `intervene_registration`, the reaction to a registration that is stuck.
use fibocom_cellular_rs.Prelude.{
  ℕ, ◌*◌, ◌&&◌, ◌||◌, Bool, true, false, none, some, leb, if◌then◌else◌,
}
use fibocom_cellular_rs.Command.{
  Command, MobileControl, NetworkService, Psn, Functionality, ResetMode, OperatorSelectionMode,
  PdpContextStatus,
}
use fibocom_cellular_rs.Error.{NetworkError}
use fibocom_cellular_rs.Env.{Env, Duration, ticks}
use fibocom_cellular_rs.Effect.{either, M, ◌>>=◌, ◌>>◌, pure, get, when, ignore, attempt, now}
use fibocom_cellular_rs.Registration.{
  Status, status_eq, CellularRegistrationStatus, ConnectionState, connection_state_eq,
  RegistrationState, registered, sticky, duration, reset_status, reset_statuses,
}
use fibocom_cellular_rs.Network.State.{Network, saturating_add, modify_status}
use fibocom_cellular_rs.Network.Urcs.{send_internal}

-- COPS=0,2
abbrev pub plmn_reselection : Command
plmn_reselection =
    Command.network_service
      (NetworkService.set_operator_selection OperatorSelectionMode.automatic (some 2))

-- CFUN=0, whose second argument depends on the module
abbrev pub rf_off : Env → Command
rf_off env = Command.mobile_control (
    MobileControl.set_module_functionality Functionality.minimum
      (if env.sara_r5 then none else some ResetMode.dont_reset))

-- CFUN=1,0
abbrev pub rf_on : Command
rf_on =
    Command.mobile_control
      (MobileControl.set_module_functionality Functionality.full (some ResetMode.dont_reset))

-- CGACT=1
abbrev pub gprs_attach : Command
gprs_attach = Command.psn (Psn.set_pdp_context_state PdpContextStatus.activated none)

unfoldable pub count_intervention : RegistrationState → RegistrationState
count_intervention s = record s {
  registration_interventions = saturating_add s.registration_interventions 1;
}

abbrev pub has_status : CellularRegistrationStatus → Status → Bool
has_status c s = status_eq c.status s

-- A domain has reported the same status for `timeout`.
unfoldable pub is_stuck : ℕ → ℕ → CellularRegistrationStatus → Bool
is_stuck ts timeout c = sticky c && leb timeout (duration c ts)

-- The four cases in which the source acts, in the order of its tests.
pub data Intervention : Type 0 where
  reselect rf_reset_eps rf_reset_csd attach leave : Intervention

unfoldable pub choose : ℕ → ℕ → RegistrationState → Intervention
unfolding is_stuck
choose ts timeout s =
    if is_stuck ts timeout s.eps
      && (has_status s.eps Status.not_registering && has_status s.csd Status.not_registering)
    then Intervention.reselect
    else if is_stuck ts timeout s.eps
        && (has_status s.eps Status.denied && has_status s.csd Status.denied)
    then Intervention.rf_reset_eps
    else if is_stuck ts timeout s.csd
        && ((has_status s.csd Status.denied || has_status s.csd Status.roaming)
            && has_status s.psd Status.denied)
    then Intervention.rf_reset_csd
    else if registered s.csd
        && (is_stuck ts timeout s.psd
            && (has_status s.psd Status.not_registering && has_status s.eps Status.not_registering))
    then Intervention.attach
    else Intervention.leave

module _ (env : Env) where
  -- The radio is switched off and on again.
  unfoldable pub rf_reset : M Network NetworkError (Unit {0})
  rf_reset = do
    modify_status reset_statuses
    modify_status count_intervention
    send_internal env (rf_off env) false
    send_internal env rf_on false

  unfoldable pub intervene : Intervention → M Network NetworkError (Unit {0})
  unfolding count_intervention
  intervene Intervention.reselect = do
    modify_status reset_statuses
    modify_status count_intervention
    ignore (send_internal env plmn_reselection false)
  intervene Intervention.rf_reset_eps = rf_reset
  intervene Intervention.rf_reset_csd = rf_reset
  intervene Intervention.attach = do
    modify_status (λ s. record s { psd = reset_status s.psd })
    modify_status count_intervention
    _ ← send_internal env (Command.psn Psn.get_pdp_context_state) true
    attached ← attempt (send_internal env gprs_attach true)
    either (λ _. do modify_status reset_statuses; send_internal env plmn_reselection true)
        (λ _. pure tt) attached
  intervene Intervention.leave = pure tt

  unfoldable pub intervene_registration : M Network NetworkError (Unit {0})
  intervene_registration = do
    n ← get
    when (connection_state_eq n.status.conn_state ConnectionState.connecting) (do
      ts ← now env
      let timeout = ticks env (Duration.secs (n.status.registration_interventions * 15))
      intervene (choose ts timeout n.status))
