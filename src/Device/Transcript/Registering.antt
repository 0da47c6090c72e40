-- ===== src/Device/Transcript/Registering.antt =====
-- client.rs: the commands of the part of `initialize` behind `setup_at_commands`.
use fibocom_cellular_rs.Prelude.{
  ◌≡◌, refl, arith, Bool, true, not, ◌∙◌, ap, none, some, List, ◌∷◌, inr,
}
use fibocom_cellular_rs.Command.{
  Command, MobileControl, NetworkService, Psn, AutomaticTimezone, Functionality, MessageWaitingMode,
  OperatorSelection, OperatorSelectionMode, PsEventReportingMode, NetworkRegistrationUrcConfig,
  GprsNetworkRegistrationUrcConfig, EpsNetworkRegistrationUrcConfig,
}
use fibocom_cellular_rs.Error.{DeviceError}
use fibocom_cellular_rs.Env.{Env, Event, Log, commands}
use fibocom_cellular_rs.Effect.{ok, modify, combinators}
use fibocom_cellular_rs.Effect.Runs.{Done, Done->>, Done->>=}
use fibocom_cellular_rs.Registration.{RegistrationState, reset}
use fibocom_cellular_rs.Network.{
  send_internal, handle_urc, on_status, modify_status, update_registration, reset_reg_time,
}
use fibocom_cellular_rs.Network
use fibocom_cellular_rs.Network.Polling.{queries, update_registration-queries}
use fibocom_cellular_rs.Sockets.{SocketSetOps}
use fibocom_cellular_rs.Device.State.{Device, on_network, net}
use fibocom_cellular_rs.Device.Setup.{is_registering, enable_registration_urcs, start_registration}
use fibocom_cellular_rs.Device.Transcript.{
  send_internal-commands, optional, pin_query, IsRepeated, send-commands, when_send-commands,
  select_sim_card-IsRepeated,
}

abbrev pub switch_radio_on : Command
switch_radio_on =
    Command.mobile_control (MobileControl.set_module_functionality Functionality.full none)

abbrev pub update_timezone : Command
update_timezone =
    Command.mobile_control
      (MobileControl.set_automatic_timezone_update AutomaticTimezone.enabled_local)

-- The settings before the radio is switched on, and that, newest first.
abbrev pub radio_settings : Env → List Command → List Command
radio_settings env before =
    switch_radio_on
    ∷ update_timezone
    ∷ optional env.toby_r2 (Command.set_message_waiting_indication MessageWaitingMode.disabled)
        before

-- The settings of what the module reports unasked, newest first.
abbrev pub urc_settings : List Command → List Command
urc_settings before =
    Command.psn
      (Psn.set_eps_network_registration_status EpsNetworkRegistrationUrcConfig.urc_disabled)
    ∷ Command.psn
        (Psn.set_gprs_network_registration_status GprsNetworkRegistrationUrcConfig.urc_disabled)
    ∷ Command.network_service
        (NetworkService.set_network_registration_status NetworkRegistrationUrcConfig.urc_disabled)
    ∷ Command.psn
        (Psn.set_packet_switched_event_reporting PsEventReportingMode.circular_buffer_urcs none)
    ∷ before

abbrev pub get_operator_selection : Command
get_operator_selection = Command.network_service NetworkService.get_operator_selection

abbrev pub select_automatically : Command
select_automatically =
    Command.network_service
      (NetworkService.set_operator_selection OperatorSelectionMode.automatic (some 2))

-- What `start_registration` has sent.
pub record IsRegistering (env : Env) (before after : List Command) : Type 0 where
  pub polled : List Command
  pub asked : Log
  pub selection : OperatorSelection
  pub polled-IsRepeated : IsRepeated pin_query 2 before polled
  pub asked_lem : commands asked ≡ urc_settings (radio_settings env polled)
  pub answer : env.send_retry asked get_operator_selection ≡ inr selection
  pub queried :
      after
      ≡ queries (
          optional
            (not (is_registering selection.mode))
            select_automatically
            (get_operator_selection ∷ commands asked))

modify_status-commands :
    {S : Type 0} (f : RegistrationState → RegistrationState) (d : Device S) (l : Log)
    → commands (on_network (modify_status {E = DeviceError} f) d l).2 ≡ commands l
unfolding combinators on_network
modify_status-commands f d l = refl

module _ (env : Env) {S : Type 0} where
  net_send-commands :
      (c : Command) (check_urc : Bool) (d : Device S) (l : Log)
      → commands (net (send_internal env c check_urc) d l).2 ≡ c ∷ commands l
  unfolding combinators
  net_send-commands c check_urc d l =
      let ic = send_internal-commands env c check_urc d l in grind arith

  enable_registration_urcs-commands :
      (d : Device S) (l : Log)
      → (enable_registration_urcs env d l).0 ≡ ok tt
      → commands (enable_registration_urcs env d l).2 ≡ urc_settings (commands l)
  unfolding enable_registration_urcs combinators
  enable_registration_urcs-commands d l h =
      let sc = send-commands env {S = S} in
      let ic = send_internal-commands env {S = S} in grind arith

  -- What changes only the state, or reads the clock.
  update-commands :
      (d : Device S) (l : Log)
      → commands (net (update_registration env) d l).2 ≡ queries (commands l)
  unfolding combinators on_network
  update-commands d l = let uq = update_registration-queries env d.network l in grind arith

  reset-commands :
      (d : Device S) (l : Log)
      → commands (on_network (on_status (reset {E = DeviceError} env)) d l).2 ≡ commands l
  unfolding reset combinators on_network
  reset-commands d l = refl

  reset_reg_time-commands :
      (d : Device S) (l : Log)
      → commands (on_network (reset_reg_time env {E = DeviceError}) d l).2 ≡ commands l
  unfolding reset_reg_time combinators on_network
  reset_reg_time-commands d l = refl

  answered :
      (selection : OperatorSelection) (d : Device S) (l : Log)
      → (net (send_internal env get_operator_selection true) d l).0 ≡ ok selection
      → env.send_retry (Event.network_urc_polled ∷ l) get_operator_selection ≡ inr selection
  unfolding send_internal Network.send handle_urc combinators on_network
  answered selection d l h = ground arith

pub start_registration-IsRegistering :
    (env : Env) {S Sock : Type 0} (ops : SocketSetOps S Sock) (d : Device S) (l : Log)
    → Done (λ l'. IsRegistering env (commands l) (commands l')) (start_registration env ops) d l
unfolding start_registration modify
start_registration-IsRegistering env ops d l = Done->> _ _ λ hpo. Done->> _ _ λ hmw.
    Done->> _ _ λ htz. Done->> _ _ λ hrf. Done->> _ _ λ _. Done->> _ _ λ _. Done->> _ _ λ hur.
      Done->>= _ _ λ selection hse. Done->> _ _ λ hau. Done->> _ _ λ hup. Done->> _ _ λ _. record {
        done = λ u h. record {
          polled = _;
          asked = _;
          selection = selection;
          polled-IsRepeated = select_sim_card-IsRepeated env _ _ hpo;
          asked_lem =
              enable_registration_urcs-commands env _ _ hur
              ∙ ap urc_settings (
                  modify_status-commands _ _ _
                  ∙ (reset-commands env _ _
                      ∙ (send-commands env _ _ _ _
                          ∙ ap (λ x. switch_radio_on ∷ x)
                              (send-commands env _ _ _ _
                                ∙ ap (λ x. update_timezone ∷ x)
                                    (when_send-commands env _ _ _ _ _)))));
          answer = answered env selection _ _ hse;
          queried =
              reset_reg_time-commands env _ _
              ∙ update-commands env _ _
              ∙ ap queries (
                  when_send-commands env _ _ _ _ _
                  ∙ ap (optional _ _) (net_send-commands env _ _ _ _));
        };
      }
