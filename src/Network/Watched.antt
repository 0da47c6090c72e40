-- ===== src/Network/Watched.antt =====
-- network.rs: a network that is not disconnected is watched. `check_registration_state` looks at
-- it, and none of the operations of the driver loses sight of it.
use fibocom_cellular_rs.Prelude.{◌≡◌, ◌≢◌, refl, ◌∙◌, sym, Bool, true, false, arith}
use fibocom_cellular_rs.Command.{Command}
use fibocom_cellular_rs.Error.{NetworkError}
use fibocom_cellular_rs.Env.{Env, Log}
use fibocom_cellular_rs.Effect.{modify, now, combinators}
use fibocom_cellular_rs.Effect.Laws.{Keeps, keeping}
use fibocom_cellular_rs.Registration.{
  ConnectionState, RegistrationState, reset, reset_statuses, reset_status, set_connection_state,
  compare_and_set,
}
use fibocom_cellular_rs.Registration.Params.{RegistrationParams}
use fibocom_cellular_rs.Registration.Update.{compare_and_set-frame}
use fibocom_cellular_rs.Network.State.{Network, modify_status, on_status, reset_reg_time, send}
use fibocom_cellular_rs.Network.Urcs.{send_internal, handle_urc}
use fibocom_cellular_rs.Network.Watch.{
  check_registration_state, update_creg, update_cgreg, update_cereg, update_registration,
  check_running_imsi,
}
use fibocom_cellular_rs.Network.Intervene.{
  Intervention, rf_off, rf_on, gprs_attach, plmn_reselection, rf_reset, intervene,
  intervene_registration, count_intervention,
}
use fibocom_cellular_rs.Network.Events.{poll_registration, process_events}
use fibocom_cellular_rs.Network.Reachable.{
  World, ReachableFrom, begin, elsewhere, enter_context, connection, sending, updating, resetting,
  resetting_time, events,
}

pub record IsWatched (n : Network) (l : Log) : Type 0 where
  pub watched : n.status.conn_state ≢ ConnectionState.disconnected

module _ {E : Type 0} where
  modify_status-IsWatched :
      (f : RegistrationState → RegistrationState)
      → ((s : RegistrationState) → (f s).conn_state ≡ s.conn_state)
      → Keeps {E = E} IsWatched (modify_status f)
  unfolding modify
  modify_status-IsWatched f h = record {
    keeps = λ n l w. record { watched = λ e. w.watched (sym (h n.status) ∙ e) };
  }

  set_connection_state-IsWatched :
      (c : ConnectionState)
      → c ≢ ConnectionState.disconnected
      → Keeps {E = E} IsWatched (modify_status (set_connection_state c))
  unfolding modify set_connection_state
  set_connection_state-IsWatched c d = record {
    keeps = λ n l w. let h = w.watched in record { watched = λ e. ground arith };
  }

  reset_statuses-IsWatched : Keeps {E = E} IsWatched (modify_status reset_statuses)
  unfolding reset_statuses
  reset_statuses-IsWatched = modify_status-IsWatched _ (λ s. refl)

  count_intervention-IsWatched : Keeps {E = E} IsWatched (modify_status count_intervention)
  unfolding count_intervention
  count_intervention-IsWatched = modify_status-IsWatched _ (λ s. refl)

  zero_timeouts-IsWatched :
      Keeps {E = E} IsWatched (modify λ m. record m { at_tx = record { consecutive_timeouts = 0 } })
  unfolding modify
  zero_timeouts-IsWatched = record { keeps = λ n l w. record { watched = w.watched } }

connecting_lem : ConnectionState.connecting ≢ ConnectionState.disconnected
connecting_lem e = ground arith

connected_lem : ConnectionState.connected ≢ ConnectionState.disconnected
connected_lem e = ground arith

module _ (env : Env) where
  now-IsWatched : {E : Type 0} → Keeps {E = E} IsWatched (now env)
  unfolding combinators
  now-IsWatched = record { keeps = λ n l w. record { watched = w.watched } }

  reset-IsWatched : {E : Type 0} → Keeps {E = E} IsWatched (on_status (reset env))
  unfolding reset reset_statuses combinators
  reset-IsWatched = record { keeps = λ n l w. record { watched = w.watched } }

  compare_and_set-IsWatched :
      (p : RegistrationParams)
      → Keeps {E = NetworkError} IsWatched (on_status (compare_and_set env p))
  compare_and_set-IsWatched p = record {
    keeps = λ n l w. record {
      watched = λ e. w.watched (sym (compare_and_set-frame env p n.status l).2 ∙ e);
    };
  }

  handle_urc-IsWatched : Keeps IsWatched (handle_urc env)
  unfolding handle_urc
  handle_urc-IsWatched = record {
    keeps = λ n l w. let h = w.watched in record { watched = λ e. ground arith };
  }

  send_internal-IsWatched : (c : Command) (b : Bool) → Keeps IsWatched (send_internal env c b)
  unfolding send_internal send handle_urc combinators
  send_internal-IsWatched c b = record {
    keeps = λ n l w. let h = w.watched in record { watched = λ e. ground arith };
  }

  ruleset watching = (
    keeping, modify_status-IsWatched, set_connection_state-IsWatched, reset_statuses-IsWatched,
    count_intervention-IsWatched, zero_timeouts-IsWatched, connecting_lem, connected_lem,
    now-IsWatched, reset-IsWatched, compare_and_set-IsWatched, handle_urc-IsWatched,
    send_internal-IsWatched,
  )

  reset_reg_time-IsWatched : {E : Type 0} → Keeps {E = E} IsWatched (reset_reg_time env)
  unfolding reset_reg_time combinators
  reset_reg_time-IsWatched = record { keeps = λ n l w. record { watched = w.watched } }

  update_creg-IsWatched : Keeps IsWatched (update_creg env)
  unfolding update_creg
  update_creg-IsWatched = search watching depth 40

  update_cgreg-IsWatched : Keeps IsWatched (update_cgreg env)
  unfolding update_cgreg
  update_cgreg-IsWatched = search watching depth 40

  update_cereg-IsWatched : Keeps IsWatched (update_cereg env)
  unfolding update_cereg
  update_cereg-IsWatched = search watching depth 40

  update_registration-IsWatched : Keeps IsWatched (update_registration env)
  unfolding update_registration
  update_registration-IsWatched =
      search (watching, update_creg-IsWatched, update_cgreg-IsWatched, update_cereg-IsWatched) depth
        40

  check_registration_state-IsWatched :
      {E : Type 0} → Keeps {E = E} IsWatched (check_registration_state env)
  unfolding check_registration_state
  check_registration_state-IsWatched = search watching depth 40

  rf_reset-IsWatched : Keeps IsWatched (rf_reset env)
  unfolding rf_reset
  rf_reset-IsWatched =
      let off = send_internal-IsWatched (rf_off env) false in
      let on = send_internal-IsWatched rf_on false in search watching depth 40

  reset_psd-IsWatched :
      {E : Type 0}
      → Keeps {E = E} IsWatched (modify_status λ s. record s { psd = reset_status s.psd })
  reset_psd-IsWatched = modify_status-IsWatched _ (λ s. refl)

  intervene-IsWatched : (i : Intervention) → Keeps IsWatched (intervene env i)
  unfolding intervene
  intervene-IsWatched Intervention.reselect = search watching depth 40
  intervene-IsWatched Intervention.rf_reset_eps = rf_reset-IsWatched
  intervene-IsWatched Intervention.rf_reset_csd = rf_reset-IsWatched
  intervene-IsWatched Intervention.attach =
      let attach = send_internal-IsWatched gprs_attach true in
      let reselect = send_internal-IsWatched plmn_reselection true in
      search (watching, reset_psd-IsWatched) depth 40
  intervene-IsWatched Intervention.leave = search watching

  intervene_registration-IsWatched : Keeps IsWatched (intervene_registration env)
  unfolding intervene_registration
  intervene_registration-IsWatched = search (watching, intervene-IsWatched) depth 40

  check_running_imsi-IsWatched : Keeps IsWatched (check_running_imsi env)
  unfolding check_running_imsi
  check_running_imsi-IsWatched =
      let at = send_internal-IsWatched Command.at false in search watching depth 40

  poll_registration-IsWatched : Keeps IsWatched (poll_registration env)
  unfolding poll_registration
  poll_registration-IsWatched = search (watching, update_registration-IsWatched) depth 40

  process_events-IsWatched : Keeps IsWatched (process_events env)
  unfolding process_events
  process_events-IsWatched =
      search
        (
          watching, check_registration_state-IsWatched, intervene_registration-IsWatched,
          check_running_imsi-IsWatched, poll_registration-IsWatched,
        )
        depth 40

-- The worlds whose network is watched.
abbrev pub Watched : World → Type 0
Watched w = IsWatched w.0 w.1

-- What the driver reaches from a watched network is watched.
pub ReachableFrom-IsWatched :
    (env : Env) {w : World} → ReachableFrom env Watched w → IsWatched w.0 w.1
ReachableFrom-IsWatched env (begin w h) = h
ReachableFrom-IsWatched env (elsewhere e w r) = record {
  watched = (ReachableFrom-IsWatched env r).watched;
}
ReachableFrom-IsWatched env (enter_context c w r) = record {
  watched = (ReachableFrom-IsWatched env r).watched;
}
ReachableFrom-IsWatched env (connection c w d r) =
    (set_connection_state-IsWatched c d).keeps _ _ (ReachableFrom-IsWatched env r)
ReachableFrom-IsWatched env (sending c b w r) =
    (send_internal-IsWatched env c b).keeps _ _ (ReachableFrom-IsWatched env r)
ReachableFrom-IsWatched env (updating w r) =
    (update_registration-IsWatched env).keeps _ _ (ReachableFrom-IsWatched env r)
ReachableFrom-IsWatched env (resetting w r) =
    (reset-IsWatched env).keeps _ _ (ReachableFrom-IsWatched env r)
ReachableFrom-IsWatched env (resetting_time w r) =
    (reset_reg_time-IsWatched env).keeps _ _ (ReachableFrom-IsWatched env r)
ReachableFrom-IsWatched env (events w r) =
    (process_events-IsWatched env).keeps _ _ (ReachableFrom-IsWatched env r)
