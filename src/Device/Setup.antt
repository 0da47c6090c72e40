-- ===== src/Device/Setup.antt =====
-- client.rs: `setup_at_commands`, `select_sim_card`, `initialize` and what they call.
use fibocom_cellular_rs.Prelude.{
  ℕ, zero, suc, Bool, true, false, not, ◌||◌, Option, none, some, inl, inr, if◌then◌else◌,
}
use fibocom_cellular_rs.Command.{
  Command, DeviceLock, MobileControl, NetworkService, Psn, General, Control, SystemFeatures,
  IpTransportLayer, GpioMode, GpioOutValue, GpioInPull, Functionality, ResetMode,
  TerminationErrorMode, AutomaticTimezone, Circuit109Behaviour, Circuit108Behaviour,
  PowerSavingMode, HexMode, FlowControl, MessageWaitingMode, OperatorSelectionMode, PinStatusCode,
  PsEventReportingMode, NetworkRegistrationUrcConfig, GprsNetworkRegistrationUrcConfig,
  EpsNetworkRegistrationUrcConfig,
}
use fibocom_cellular_rs.Error.{DeviceError}
use fibocom_cellular_rs.Env.{Env, Duration}
use fibocom_cellular_rs.Effect.{
  either, M, ◌>>=◌, ◌>>◌, pure, throw, get, when, attempt, ignore, modify,
}
use fibocom_cellular_rs.BlockingTimer.{wait}
use fibocom_cellular_rs.Registration.{ConnectionState, reset, set_connection_state}
use fibocom_cellular_rs.Network.{
  ContextState, send_internal, on_status, modify_status, update_registration, reset_reg_time,
}
use fibocom_cellular_rs.Sockets.{SocketSetOps}
use fibocom_cellular_rs.Device.State.{
  PowerState, power_state_eq, State, state_eq, Device, on_network, net, set_power_state, set_state,
  set_context_state,
}
use fibocom_cellular_rs.Device.Power.{is_alive, power_on, hard_reset, hard_power_off}

abbrev cfun : Functionality → Option ResetMode → Command
cfun f r = Command.mobile_control (MobileControl.set_module_functionality f r)

-- The second argument of CFUN=0.
abbrev minimum_reset : Env → Option ResetMode
minimum_reset env = if env.sara_r5 then none else some ResetMode.dont_reset

-- `Ok(PinStatus { code }) if code == PinStatusCode::Ready`
unfoldable pub is_ready : PinStatusCode → Bool
is_ready PinStatusCode.ready = true
is_ready _ = false

-- `OperatorSelectionMode::Automatic | OperatorSelectionMode::Manual`
unfoldable pub is_registering : OperatorSelectionMode → Bool
is_registering OperatorSelectionMode.automatic = true
is_registering OperatorSelectionMode.manual = true
is_registering _ = false

module _ (env : Env) {S : Type 0} where
  unfoldable pub send : Command → Bool → M (Device S) DeviceError (Unit {0})
  send c check_urc = do _ ← net (send_internal env c check_urc); pure tt

  -- The loop of `select_sim_card`: whether the SIM has become ready in `n` polls.
  unfoldable pub poll_pin : ℕ → M (Device S) DeviceError Bool
  unfolding is_ready
  poll_pin zero = pure false
  poll_pin (suc n) = do
    reply ←
        attempt
          (on_network (send_internal env (Command.device_lock DeviceLock.get_pin_status) true))
    let ready : Bool = elim reply [ inl _ ↦ false | inr status ↦ is_ready status.code ]
    if ready then pure true else (do wait env (Duration.secs 1); poll_pin n)

  unfoldable pub select_sim_card : M (Device S) DeviceError (Unit {0})
  select_sim_card = do
    ready ← poll_pin 2
    if ready then pure tt else (do
      send (cfun Functionality.minimum (minimum_reset env)) true
      send (cfun Functionality.full (some ResetMode.dont_reset)) true
      throw DeviceError.busy)

  unfoldable pub enable_registration_urcs : M (Device S) DeviceError (Unit {0})
  enable_registration_urcs = do
    ignore (
        on_network (
          send_internal env
            (Command.psn (
              Psn.set_packet_switched_event_reporting PsEventReportingMode.circular_buffer_urcs
                none))
            true))
    send
        (Command.network_service (
          NetworkService.set_network_registration_status NetworkRegistrationUrcConfig.urc_disabled))
        true
    send
        (Command.psn
          (Psn.set_gprs_network_registration_status GprsNetworkRegistrationUrcConfig.urc_disabled))
        true
    send
        (Command.psn
          (Psn.set_eps_network_registration_status EpsNetworkRegistrationUrcConfig.urc_disabled))
        true

  -- The settings that `setup_at_commands` makes, up to the identification of the module.
  unfoldable pub select_sim_slot : M (Device S) DeviceError (Unit {0})
  select_sim_slot = do
    send
        (Command.mobile_control
          (MobileControl.set_report_mobile_termination_error TerminationErrorMode.enabled))
        false
    send (Command.set_gpio_configuration 25 (GpioMode.output GpioOutValue.high)) false
    when env.lara_r6
        (send (Command.set_gpio_configuration 42 (GpioMode.input GpioInPull.no_pull)) false)
    send (Command.general General.get_model_id) false
    send (Command.general General.get_firmware_version) false

  -- The settings of the serial line.
  unfoldable pub configure_line : M (Device S) DeviceError (Unit {0})
  configure_line = do
    send (Command.general General.get_ccid) false
    send
        (Command.control
          (Control.set_circuit_109_behaviour Circuit109Behaviour.changes_with_carrier))
        false
    send (Command.control (Control.set_circuit_108_behaviour Circuit108Behaviour.ignore)) false
    send
        (Command.system_features
          (SystemFeatures.set_power_saving_control PowerSavingMode.disabled none))
        false
    send
        (Command.ip_transport_layer (
          IpTransportLayer.set_hex_mode
            (if env.hex_mode then HexMode.enabled else HexMode.disabled)))
        false
    send
        (Command.control (
          Control.set_flow_control
            (if env.flow_control then FlowControl.rts_cts else FlowControl.disabled)))
        false

  -- A module that does not answer is reset, and switched off where that fails too.
  unfoldable pub recover_baud : M (Device S) DeviceError (Unit {0})
  recover_baud = do
    reset ← attempt (hard_reset env env.spin_limit)
    either (λ _. do hard_power_off env; wait env (Duration.secs 1)) (λ _. pure tt) reset
    throw DeviceError.baud_detection

  module _ {Sock : Type 0} (ops : SocketSetOps S Sock) where
    unfoldable pub clear_buffers : M (Device S) DeviceError (Unit {0})
    clear_buffers =
        modify
          λ d. record d { sockets = elim d.sockets [ none ↦ none | some s ↦ some (ops.prune s) ] }

    unfoldable pub setup_at_commands : M (Device S) DeviceError (Unit {0})
    setup_at_commands = do
      set_context_state ContextState.setup
      clear_buffers
      power_on env env.spin_limit
      alive ← attempt (is_alive env 5)
      either (λ _. recover_baud) (λ _. pure tt) alive
      select_sim_slot
      select_sim_card
      configure_line
      set_state State.at_initialized

    -- The first part of `initialize`: the module is on, or this fails.
    unfoldable pub ensure_power : M (Device S) DeviceError (Unit {0})
    ensure_power = do
      set_state State.off
      powered ← attempt (power_on env env.spin_limit)
      either (λ _. hard_reset env env.spin_limit) (λ _. pure tt) powered
      set_power_state PowerState.on

    -- The part of `initialize` behind `setup_at_commands`.
    unfoldable pub start_registration : M (Device S) DeviceError (Unit {0})
    unfolding is_registering
    start_registration = do
      select_sim_card
      when env.toby_r2
          (send (Command.set_message_waiting_indication MessageWaitingMode.disabled) false)
      send
          (Command.mobile_control
            (MobileControl.set_automatic_timezone_update AutomaticTimezone.enabled_local))
          false
      send (cfun Functionality.full none) true
      on_network (on_status (reset env))
      on_network (modify_status (set_connection_state ConnectionState.connecting))
      enable_registration_urcs
      selection ←
          net
            (send_internal env (Command.network_service NetworkService.get_operator_selection) true)
      when (not (is_registering selection.mode)) (
          send
            (Command.network_service
              (NetworkService.set_operator_selection OperatorSelectionMode.automatic (some 2)))
            true)
      net (update_registration env)
      on_network (reset_reg_time env)
      set_state State.fully_initialized

    unfoldable pub initialize : M (Device S) DeviceError (Unit {0})
    unfolding power_state_eq state_eq
    initialize = do
      d ← get
      let is_on = power_state_eq d.power_state PowerState.on
      when (not is_on) ensure_power
      if not is_on || not (state_eq d.state State.fully_initialized)
          then (do setup_at_commands; start_registration)
          else pure tt
