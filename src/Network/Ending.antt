-- ===== src/Network/Ending.antt =====
-- network.rs: no operation of the network panics or runs on for ever.
use fibocom_cellular_rs.Prelude.{arith, true, false}
use fibocom_cellular_rs.Command.{Command}
use fibocom_cellular_rs.Env.{Env}
use fibocom_cellular_rs.Error.{NetworkError}
use fibocom_cellular_rs.Effect.{combinators}
use fibocom_cellular_rs.Effect.Ends.{Ends, ending}
use fibocom_cellular_rs.Registration.{compare_and_set, reset}
use fibocom_cellular_rs.Registration.Params.{RegistrationParams}
use fibocom_cellular_rs.Network.State.{
  send, send_ignore_timeout, on_status, on_at_tx, reset_reg_time,
}
use fibocom_cellular_rs.Network.Urcs.{send_internal, handle_urc}
use fibocom_cellular_rs.Network.Watch.{
  check_registration_state, update_creg, update_cgreg, update_cereg, update_registration,
  check_running_imsi,
}
use fibocom_cellular_rs.Network.Intervene.{
  Intervention, rf_off, rf_on, gprs_attach, plmn_reselection, rf_reset, intervene,
  intervene_registration,
}
use fibocom_cellular_rs.Network.Events.{poll_registration, process_events}

module _ (env : Env) where
  pub handle_urc-Ends : Ends (handle_urc env)
  unfolding handle_urc
  handle_urc-Ends = record { ends = λ n l x h. ground arith }

  pub send_internal-Ends : (c : Command) → (b : _) → Ends (send_internal env c b)
  unfolding send_internal send handle_urc combinators
  send_internal-Ends c b = record { ends = λ n l x h. ground arith }

  pub on_at_tx-Ends : (c : Command) → Ends (on_at_tx (send_ignore_timeout env c))
  unfolding send_ignore_timeout
  on_at_tx-Ends c = record { ends = λ n l x h. ground arith }

  compare_and_set-Ends :
      (p : RegistrationParams) → Ends {E = NetworkError} (on_status (compare_and_set env p))
  unfolding compare_and_set combinators
  compare_and_set-Ends p = record { ends = λ n l x h. ground arith }

  pub reset-Ends : {E : _} → Ends {E = E} (on_status (reset env))
  unfolding reset combinators
  reset-Ends = record { ends = λ n l x h. ground arith }

  ruleset network_rules =
      (ending, send_internal-Ends, handle_urc-Ends, compare_and_set-Ends, reset-Ends)

  update_creg-Ends : Ends (update_creg env)
  unfolding update_creg
  update_creg-Ends = search network_rules depth 40

  update_cgreg-Ends : Ends (update_cgreg env)
  unfolding update_cgreg
  update_cgreg-Ends = search network_rules depth 40

  update_cereg-Ends : Ends (update_cereg env)
  unfolding update_cereg
  update_cereg-Ends = search network_rules depth 40

  pub update_registration-Ends : Ends (update_registration env)
  unfolding update_registration
  update_registration-Ends =
      search (network_rules, update_creg-Ends, update_cgreg-Ends, update_cereg-Ends) depth 40

  check_registration_state-Ends : {E : Type 0} → Ends {E = E} (check_registration_state env)
  unfolding check_registration_state
  check_registration_state-Ends = search network_rules depth 40

  check_running_imsi-Ends : Ends (check_running_imsi env)
  unfolding check_running_imsi
  check_running_imsi-Ends =
      let at = send_internal-Ends Command.at false in search network_rules depth 40

  rf_reset-Ends : Ends (rf_reset env)
  unfolding rf_reset
  rf_reset-Ends =
      let off = send_internal-Ends (rf_off env) false in
      let on = send_internal-Ends rf_on false in search network_rules depth 40

  intervene-Ends : (i : Intervention) → Ends (intervene env i)
  unfolding intervene
  intervene-Ends Intervention.reselect = search network_rules depth 40
  intervene-Ends Intervention.rf_reset_eps = rf_reset-Ends
  intervene-Ends Intervention.rf_reset_csd = rf_reset-Ends
  intervene-Ends Intervention.attach =
      let attach = send_internal-Ends gprs_attach true in
      let reselect = send_internal-Ends plmn_reselection true in search network_rules depth 40
  intervene-Ends Intervention.leave = search network_rules

  intervene_registration-Ends : Ends (intervene_registration env)
  unfolding intervene_registration
  intervene_registration-Ends = search (network_rules, intervene-Ends) depth 40

  poll_registration-Ends : Ends (poll_registration env)
  unfolding poll_registration
  poll_registration-Ends = search (network_rules, update_registration-Ends) depth 60

  pub process_events-Ends : Ends (process_events env)
  unfolding process_events
  process_events-Ends =
      search
        (
          network_rules, check_registration_state-Ends, intervene_registration-Ends,
          check_running_imsi-Ends, poll_registration-Ends,
        )
        depth 60

  pub reset_reg_time-Ends : {E : Type 0} → Ends {E = E} (reset_reg_time env)
  unfolding reset_reg_time
  reset_reg_time-Ends = search network_rules depth 40
