-- ===== src/Device/Tests.antt =====
-- The transcript of an initialization, with a module that answers.
use fibocom_cellular_rs.Prelude.{refl, true, none, some, ◌⊎◌, inl, inr, [], arith}
use fibocom_cellular_rs.Command.{
  Command, Response, MobileControl, NetworkService, Psn, General, SystemFeatures, IpTransportLayer,
  DeviceLock, PinStatusCode, OperatorSelectionMode,
}
use fibocom_cellular_rs.Error.{AtError}
use fibocom_cellular_rs.Env.{Env, commands}
use fibocom_cellular_rs.Effect.{combinators}
use fibocom_cellular_rs.Device.State.{new, on_network}
use fibocom_cellular_rs.Device.Setup.{
  initialize, setup_at_commands, start_registration, ensure_power, clear_buffers, select_sim_slot,
  send, select_sim_card, poll_pin, is_ready, configure_line, enable_registration_urcs,
  is_registering,
}
use fibocom_cellular_rs.Device.Power.{
  power_on, power_state, power_state_by, read_vint, is_alive, poke,
}
use fibocom_cellular_rs.Network.{
  send_internal, send_ignore_timeout, handle_urc, reset_reg_time, update_registration,
}
use fibocom_cellular_rs.Network
use fibocom_cellular_rs.Network.Watch.{update_creg, update_cgreg, update_cereg}
use fibocom_cellular_rs.Registration.{reset, set_connection_state}
use fibocom_cellular_rs.Device.Transcript.Initializing.{
  IsBroughtUp, switched_on, initialize-IsBroughtUp,
}
use fibocom_cellular_rs.Samples.{Sockets, dead_env, set_ops}

-- A module that takes every setting, has its SIM ready and no operator selected, and answers
-- no question about its registration.
abbrev obliging : (c : Command) → AtError ⊎ Response c
obliging Command.at = inr tt
obliging (Command.mobile_control (MobileControl.set_report_mobile_termination_error n)) = inr tt
obliging (Command.mobile_control (MobileControl.set_module_functionality f r)) = inr tt
obliging (Command.mobile_control (MobileControl.set_automatic_timezone_update o)) = inr tt
obliging (Command.set_gpio_configuration i m) = inr tt
obliging (Command.general General.get_model_id) = inr (record { model = [] })
obliging (Command.general General.get_firmware_version) = inr (record { version = [] })
obliging (Command.general General.get_ccid) = inr (record { ccid = 1 })
obliging (Command.device_lock DeviceLock.get_pin_status) =
    inr (record { code = PinStatusCode.ready })
obliging (Command.control c) = inr tt
obliging (Command.system_features (SystemFeatures.set_power_saving_control m t)) = inr tt
obliging (Command.ip_transport_layer (IpTransportLayer.set_hex_mode m)) = inr tt
obliging (Command.network_service (NetworkService.set_network_registration_status n)) = inr tt
obliging (Command.network_service (NetworkService.set_operator_selection m f)) = inr tt
obliging (Command.network_service NetworkService.get_operator_selection) =
    inr (record { mode = OperatorSelectionMode.deregister; oper = none; act = none })
obliging (Command.psn (Psn.set_gprs_network_registration_status n)) = inr tt
obliging (Command.psn (Psn.set_eps_network_registration_status n)) = inr tt
obliging c = inl AtError.timeout

-- The sense pin reads high.
abbrev obliging_env : Env
obliging_env = record dead_env { send_retry = λ l c. obliging c; vint_pin = some (λ l. some true) }

initialize-IsBroughtUp_example :
    IsBroughtUp obliging_env
      (switched_on obliging_env set_ops (new {S = Sockets}) [])
      (commands (initialize obliging_env set_ops (new {S = Sockets}) []).2)
unfolding combinators new on_network initialize ensure_power power_on power_state power_state_by
    read_vint setup_at_commands clear_buffers is_alive poke send_ignore_timeout select_sim_slot send
    send_internal Network.send handle_urc select_sim_card poll_pin is_ready configure_line
    start_registration enable_registration_urcs reset reset_reg_time update_registration update_creg
    update_cgreg update_cereg set_connection_state is_registering
initialize-IsBroughtUp_example =
    (initialize-IsBroughtUp obliging_env set_ops new []).1 (λ p s. ground arith) refl
