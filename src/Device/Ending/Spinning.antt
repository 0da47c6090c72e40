-- ===== src/Device/Ending/Spinning.antt =====
-- client.rs: initialization, events and `spin`.
use fibocom_cellular_rs.Prelude.{ℕ, zero, suc, Bool, true, ◌≡◌, arith}
use fibocom_cellular_rs.Command.{Command}
use fibocom_cellular_rs.Error.{DeviceError, NetworkError, GenericError}
use fibocom_cellular_rs.Env.{Env, IsTimely}
use fibocom_cellular_rs.Effect.Ends.{Ends, ending}
use fibocom_cellular_rs.Network.Ending.{
  send_internal-Ends, reset-Ends, update_registration-Ends, reset_reg_time-Ends,
  process_events-Ends,
}
use fibocom_cellular_rs.Sockets.{SocketSetOps}
use fibocom_cellular_rs.Device.Setup.{
  send, poll_pin, select_sim_card, enable_registration_urcs, select_sim_slot, configure_line,
  recover_baud, clear_buffers, setup_at_commands, ensure_power, start_registration, initialize,
}
use fibocom_cellular_rs.Device.Spin.{
  handle_urc_internal, after_network_events, process_events, settle, spin,
}
use fibocom_cellular_rs.Device.Ending.Polling.{Ends-on_network, is_alive-Ends}
use fibocom_cellular_rs.Device.Ending.Powering.{
  wait_secs-Ends, hard_power_off-Ends, started-Ends, hard_reset-Ends,
}

module _ (env : Env) (S : Type 0) where
  send-Ends : (c : Command) (b : Bool) → Ends (send env {S = S} c b)
  unfolding send
  send-Ends c b = search (ending, Ends-on_network, send_internal-Ends) depth 40

  select_sim_slot-Ends : Ends (select_sim_slot env {S = S})
  unfolding select_sim_slot
  select_sim_slot-Ends = search (ending, send-Ends) depth 40

  configure_line-Ends : Ends (configure_line env {S = S})
  unfolding configure_line
  configure_line-Ends = search (ending, send-Ends) depth 40

  enable_registration_urcs-Ends : Ends (enable_registration_urcs env {S = S})
  unfolding enable_registration_urcs
  enable_registration_urcs-Ends =
      search (ending, Ends-on_network, send_internal-Ends, send-Ends) depth 60

  module _ (timely : IsTimely env) where
    poll_pin-Ends : (n : ℕ) → Ends (poll_pin env {S = S} n)
    unfolding poll_pin
    poll_pin-Ends zero = search ending
    poll_pin-Ends (suc n) =
        let ih = poll_pin-Ends n in
        let second = wait_secs-Ends env S timely DeviceError 1 (omega arith) in
        search (ending, Ends-on_network, send_internal-Ends) depth 40

    select_sim_card-Ends : Ends (select_sim_card env {S = S})
    unfolding select_sim_card
    select_sim_card-Ends = search (ending, poll_pin-Ends, send-Ends) depth 40

    module _ (pin : env.power_pin ≡ true) where
      ruleset device_rules = (
        ending, Ends-on_network, send_internal-Ends, send-Ends, is_alive-Ends, hard_power_off-Ends,
        reset-Ends, update_registration-Ends, reset_reg_time-Ends, process_events-Ends,
      )

      recover_baud-Ends : Ends (recover_baud env {S = S})
      unfolding recover_baud
      recover_baud-Ends =
          let reset = hard_reset-Ends env S timely pin in
          let off = hard_power_off-Ends env S timely in
          let second = wait_secs-Ends env S timely DeviceError 1 (omega arith) in
          search device_rules depth 40

      module _ {Sock : Type 0} (ops : SocketSetOps S Sock) where
        pub setup_at_commands-Ends : Ends (setup_at_commands env ops)
        unfolding setup_at_commands clear_buffers
        setup_at_commands-Ends =
            let on = started-Ends env S timely pin in
            search
              (
                device_rules, recover_baud-Ends, select_sim_slot-Ends, select_sim_card-Ends,
                configure_line-Ends,
              )
              depth 60

        ensure_power-Ends : Ends (ensure_power env ops)
        unfolding ensure_power
        ensure_power-Ends =
            let on = started-Ends env S timely pin in
            let reset = hard_reset-Ends env S timely pin in search device_rules depth 60

        start_registration-Ends : Ends (start_registration env ops)
        unfolding start_registration
        start_registration-Ends =
            search (device_rules, select_sim_card-Ends, enable_registration_urcs-Ends) depth 80

        pub initialize-Ends : Ends (initialize env ops)
        unfolding initialize
        initialize-Ends =
            search
              (device_rules, ensure_power-Ends, setup_at_commands-Ends, start_registration-Ends)
              depth 60

        handle_urc_internal-Ends : Ends (handle_urc_internal env ops)
        unfolding handle_urc_internal
        handle_urc_internal-Ends = record { ends = λ d l x h. ground arith }

        after_network_events-Ends : (e : NetworkError) → Ends (after_network_events env ops e)
        unfolding after_network_events
        after_network_events-Ends (NetworkError.generic GenericError.timeout) =
            let reset = hard_reset-Ends env S timely pin in search device_rules depth 60
        after_network_events-Ends e = search device_rules depth 60

        device_events-Ends : Ends (process_events env ops)
        unfolding process_events
        device_events-Ends =
            search (device_rules, handle_urc_internal-Ends, after_network_events-Ends) depth 60

        settle-Ends : Ends (settle env ops)
        unfolding settle
        settle-Ends = search device_rules depth 60

        pub spin-Ends : Ends (spin env ops)
        unfolding spin
        spin-Ends = search (device_rules, initialize-Ends, device_events-Ends, settle-Ends) depth 60
