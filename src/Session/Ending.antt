-- ===== src/Session/Ending.antt =====
-- client.rs, power.rs, services/data: on a board whose loops end, an application with short names
-- runs to its end.
pub mod Stacks
pub mod Texts
use fibocom_cellular_rs.Prelude.{
  ℕ, ◌≤◌, ◌<◌, ◌≡◌, ◌≢◌, true, false, List, [], ◌∷◌, length, if◌then◌else◌, arith,
}
use fibocom_cellular_rs.Command.{
  Command, SystemFeatures, FsFactoryRestoreType, NvmFactoryRestoreType, NetworkService,
  MobileControl,
}
use fibocom_cellular_rs.Error.{DeviceError}
use fibocom_cellular_rs.Env.{Env, Log, Duration, IsTimely}
use fibocom_cellular_rs.Effect.{Fault, halt}
use fibocom_cellular_rs.Effect.Ends.{Ends, ending}
use fibocom_cellular_rs.Network.Ending.{send_internal-Ends}
use fibocom_cellular_rs.Text.{IsBounded}
use fibocom_cellular_rs.Device.State.{Device}
use fibocom_cellular_rs.Device.Power.{factory_reset, soft_power_off}
use fibocom_cellular_rs.Device.Spin.{send_at, signal_strength}
use fibocom_cellular_rs.Device.Ending.Polling.{Ends-on_network, power_state-Ends}
use fibocom_cellular_rs.Device.Ending.Powering.{
  Waits, wait_secs-Ends, soft_reset-Ends, started-Ends, hard_reset-Ends, hard_power_off-Ends,
}
use fibocom_cellular_rs.Device.Ending.Spinning.{spin-Ends, setup_at_commands-Ends, initialize-Ends}
use fibocom_cellular_rs.Data.Ending.{
  Ends-on_service_network, Ends-on_service, IsShortInfo, data_service-Ends,
}
use fibocom_cellular_rs.Data.Service
use fibocom_cellular_rs.Data.Ssl.{import_certificate, import_root_ca, import_private_key}
use fibocom_cellular_rs.Session.{
  Surroundings, ServiceCall, Call, serve, serve_all, perform, perform_all,
}
use fibocom_cellular_rs.Session.Ending.Stacks.{
  tcp_socket-Ends, tcp_connect-Ends, tcp_is_connected-Ends, tcp_send-Ends, tcp_receive-Ends,
  tcp_close-Ends, udp_socket-Ends, udp_connect-Ends, udp_send-Ends, udp_receive-Ends,
  udp_close-Ends,
}
use fibocom_cellular_rs.Session.Ending.Texts.{
  IsShortAnswer, get_host_by_name-Ends, get_host_by_address-Ends, import_data-Ends, enable_ssl-Ends,
}

-- The names that a call hands over fit into the driver's strings.
unfoldable pub IsShort : ServiceCall → Type 0
IsShort (ServiceCall.import_certificate id name certificate) = length name < 200
IsShort (ServiceCall.import_root_ca id name ca) = length name < 200
IsShort (ServiceCall.import_private_key id name key password) = length name < 200
IsShort (ServiceCall.enable_ssl id hostname sni) = length hostname ≤ (if sni then 128 else 256)
IsShort _ = Unit {0}

unfoldable pub AllShort : List ServiceCall → Type 0
AllShort [] = Unit {0}
AllShort (c ∷ rest) = IsShort c × AllShort rest

unfoldable pub AreShort : {S : Type 0} → List (Call S) → Type 0
AreShort [] = Unit {0}
AreShort (Call.data_service apn_info calls ∷ rest) =
    IsShortInfo apn_info × AllShort calls × AreShort rest
AreShort (_ ∷ rest) = AreShort rest

module _ (env : Env) {S Sock T U : Type 0} (ops : Surroundings S Sock T U) (b : IsBounded env)
    (short : IsShortAnswer env) where
  ruleset service_call_rules = (
    ending, tcp_socket-Ends, tcp_connect-Ends, tcp_is_connected-Ends, tcp_send-Ends,
    tcp_receive-Ends, tcp_close-Ends, udp_socket-Ends, udp_connect-Ends, udp_send-Ends,
    udp_receive-Ends, udp_close-Ends, get_host_by_name-Ends, get_host_by_address-Ends,
    import_data-Ends, enable_ssl-Ends, Ends-on_service_network, send_internal-Ends,
  )

  serve-Ends : {E : Type 0} (c : ServiceCall) → IsShort c → Ends {E = E} (serve env ops c)
  unfolding serve Service.send_at import_certificate import_root_ca import_private_key IsShort
  serve-Ends (ServiceCall.send_at c) h = search service_call_rules depth 40
  serve-Ends _ h = search service_call_rules

  serve_all-Ends :
      {E : Type 0} (cs : List ServiceCall) → AllShort cs → Ends {E = E} (serve_all env ops cs)
  unfolding serve_all AllShort
  serve_all-Ends [] h = search ending
  serve_all-Ends {E = E} (c ∷ rest) h =
      let ih = serve_all-Ends {E = E} rest h.1 in
      let one = serve-Ends {E = E} c h.0 in search ending

  module _ (timely : IsTimely env) (pin : env.power_pin ≡ true) where
    factory_reset-Ends : Ends (factory_reset env {S = S} env.spin_limit)
    unfolding factory_reset
    factory_reset-Ends =
        let restore = λ (f : FsFactoryRestoreType) (n : NvmFactoryRestoreType).
          send_internal-Ends env
            (Command.system_features (SystemFeatures.set_factory_configuration f n)) false in
        let soft = soft_reset-Ends env S timely in
        let hard = hard_reset-Ends env S timely pin in
        search (ending, Ends-on_network, restore) depth 60

    soft_power_off-Ends : Ends (soft_power_off env {S = S})
    unfolding soft_power_off
    soft_power_off-Ends =
        let off = send_internal-Ends env (Command.mobile_control MobileControl.module_switch_off) in
        let ten = wait_secs-Ends env S timely DeviceError 10 (omega arith) in
        search (ending, Ends-on_network, off) depth 60

    send_at-Ends : (c : Command) → Ends (send_at env ops.set c)
    unfolding send_at
    send_at-Ends c = search (ending, Ends-on_network, send_internal-Ends) depth 60

    signal_strength-Ends : Ends (signal_strength env ops.set)
    unfolding signal_strength
    signal_strength-Ends = send_at-Ends (Command.network_service NetworkService.get_signal_quality)

    ruleset device_call_rules = (
      ending, spin-Ends, setup_at_commands-Ends, initialize-Ends, signal_strength-Ends,
      send_at-Ends, power_state-Ends, started-Ends, hard_reset-Ends, factory_reset-Ends,
      soft_power_off-Ends, hard_power_off-Ends,
    )

    perform_all-Ends :
        {E : Type 0} (cs : List (Call S)) → AreShort cs → Ends {E = E} (perform_all env ops cs)
    unfolding perform_all perform AreShort
    perform_all-Ends [] h = search ending
    perform_all-Ends {E = E} (Call.data_service apn_info calls ∷ rest) h =
        let ih = perform_all-Ends {E = E} rest h.2 in
        let served = serve_all-Ends {E = E} calls h.1 in
        let made = data_service-Ends env ops.set timely pin b apn_info h.0 in
        search (ending, Ends-on_service) depth 40
    perform_all-Ends {E = E} (_ ∷ rest) h =
        let ih = perform_all-Ends {E = E} rest h in search device_call_rules depth 40

-- On a board whose clock moves on at every reading and never goes back, whose busy loops may run
-- more rounds than 30 s have ticks, and which has a power pin, with strings that take what fits and
-- names from the module of 128 bytes at most: an application whose access points have 99 bytes at
-- most and its user names and passwords 64, whose certificates have names of less than 200 bytes,
-- and whose host names have 256 bytes at most, 128 where they are indicated, comes to its end,
-- whatever it calls and whatever the module answers. No call panics or runs on for ever.
pub perform_all-ends :
    (env : Env) {S Sock T U : Type 0} (ops : Surroundings S Sock T U)
    → IsTimely env
    → env.power_pin ≡ true
    → IsBounded env
    → IsShortAnswer env
    → (E : Type 0) (cs : List (Call S)) → AreShort cs
    → (d : Device S) (l : Log) (x : Fault) → (perform_all env ops {E = E} cs d l).0 ≢ halt x
perform_all-ends env ops timely pin b short E cs h =
    (perform_all-Ends env ops b short timely pin cs h).ends
