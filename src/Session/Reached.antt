-- ===== src/Session/Reached.antt =====
-- client.rs, power.rs, services/data: whatever an application calls, the network of its device is
-- one that the driver reaches.
use fibocom_cellular_rs.Prelude.{◌≤◌, refl, List, [], ◌∷◌}
use fibocom_cellular_rs.Env.{Env, Log, IsAdvancing, IsMonotone}
use fibocom_cellular_rs.Effect.Laws.{Keeps, keeping}
use fibocom_cellular_rs.Effect.{modify}
use fibocom_cellular_rs.Network.Reaching.{send_internal-IsReached}
use fibocom_cellular_rs.Network.Reachable.{
  World, Reachable, IsNew, begin, Replays, Reachable-bounds, Reachable-Replays,
}
use fibocom_cellular_rs.Network.Sound.{IsPast}
use fibocom_cellular_rs.Device.State.{new}
use fibocom_cellular_rs.Device.Spin.{set_socket_storage, take_socket_storage}
use fibocom_cellular_rs.Device.State.{Device}
use fibocom_cellular_rs.Device.Setup.{start_registration}
use fibocom_cellular_rs.Device.Reaching.{
  IsDeviceInvariant, power_state-Keeps, power_on-Keeps, hard_reset-Keeps, hard_power_off-Keeps,
}
use fibocom_cellular_rs.Device.Reaching.Reached.{
  OfDevice, OfDevice-IsDeviceInvariant, start_registration-OfDevice,
}
use fibocom_cellular_rs.Device.Reaching.Spinning.{
  spin-Keeps, setup_at_commands-Keeps, initialize-Keeps,
}
use fibocom_cellular_rs.Data.Reaching.{
  OfService, on_service_network-OfService, on_service-Keeps, data_service-Keeps,
}
use fibocom_cellular_rs.Data.Service.{send_at}
use fibocom_cellular_rs.Data.Ssl.{import_certificate, import_root_ca, import_private_key}
use fibocom_cellular_rs.Session.{
  Surroundings, ServiceCall, Call, serve, serve_all, perform, perform_all,
}
use fibocom_cellular_rs.Session.Stacks.{
  tcp_socket-OfService, tcp_connect-OfService, tcp_is_connected-OfService, tcp_send-OfService,
  tcp_receive-OfService, tcp_close-OfService, udp_socket-OfService, udp_connect-OfService,
  udp_send-OfService, udp_receive-OfService, udp_close-OfService,
}
use fibocom_cellular_rs.Session.Texts.{
  get_host_by_name-OfService, get_host_by_address-OfService, import_data-OfService,
  enable_ssl-OfService,
}
use fibocom_cellular_rs.Session.Powers.{
  factory_reset-Keeps, soft_power_off-Keeps, send_at-Keeps, signal_strength-Keeps,
}

module _ (env : Env) (from : World → Type 0) {S Sock T U : Type 0}
    (ops : Surroundings S Sock T U) where
  ruleset service_call_rules = (
    keeping, tcp_socket-OfService, tcp_connect-OfService, tcp_is_connected-OfService,
    tcp_send-OfService, tcp_receive-OfService, tcp_close-OfService, udp_socket-OfService,
    udp_connect-OfService, udp_send-OfService, udp_receive-OfService, udp_close-OfService,
    get_host_by_name-OfService, get_host_by_address-OfService, import_data-OfService,
    enable_ssl-OfService,
  )

  serve-OfService :
      {E : Type 0} (c : ServiceCall) → Keeps {E = E} (OfService env from) (serve env ops c)
  unfolding serve send_at import_certificate import_root_ca import_private_key
  serve-OfService (ServiceCall.send_at c) =
      search (keeping, on_service_network-OfService, send_internal-IsReached) depth 40
  serve-OfService _ = search service_call_rules

  serve_all-OfService :
      {E : Type 0} (cs : List ServiceCall)
      → Keeps {E = E} (OfService env from) (serve_all env ops cs)
  unfolding serve_all
  serve_all-OfService [] = search keeping
  serve_all-OfService {E = E} (c ∷ rest) =
      let ih = serve_all-OfService {E = E} rest in search (keeping, serve-OfService)

  ruleset device_call_rules = (
    keeping, spin-Keeps, setup_at_commands-Keeps, initialize-Keeps, signal_strength-Keeps,
    send_at-Keeps, power_state-Keeps, power_on-Keeps, hard_reset-Keeps, factory_reset-Keeps,
    soft_power_off-Keeps, hard_power_off-Keeps,
  )

  -- What the operations of a device keep, and the start of the registration too, every application
  -- keeps.
  module _ (P : Device S → Log → Type 0) (inv : IsDeviceInvariant env from P)
      (starts : Keeps P (start_registration env ops.set)) where
    perform-Keeps : {E : Type 0} (c : Call S) → Keeps {E = E} P (perform env ops c)
    unfolding perform modify set_socket_storage take_socket_storage
    perform-Keeps (Call.set_socket_storage s) = record { keeps = λ d l p. inv.socketed d _ l p }
    perform-Keeps Call.take_socket_storage = record { keeps = λ d l p. inv.socketed d _ l p }
    perform-Keeps (Call.data_service apn_info calls) =
        search (keeping, data_service-Keeps, on_service-Keeps, serve_all-OfService) depth 40
    perform-Keeps _ = search device_call_rules

    pub perform_all-Keeps :
        {E : Type 0} (cs : List (Call S)) → Keeps {E = E} P (perform_all env ops cs)
    unfolding perform_all
    perform_all-Keeps [] = search keeping
    perform_all-Keeps {E = E} (c ∷ rest) =
        let ih = perform_all-Keeps {E = E} rest in search (keeping, perform-Keeps)

-- Whatever an application calls on a new device and on the data services that it makes of it, in
-- any order and whatever becomes of the calls, also a panic or a run that does not end, the
-- network of the device is one that the driver reaches.
pub perform_all-Reachable :
    (env : Env) {S Sock T U : Type 0} (ops : Surroundings S Sock T U) (cs : List (Call S))
    (E : Type 0) (l : Log)
    → let r = perform_all env ops {E = E} cs new l in Reachable env (r.1.network, r.2)
unfolding new
perform_all-Reachable env ops cs E l =
    (perform_all-Keeps env IsNew ops (OfDevice env IsNew) (OfDevice-IsDeviceInvariant env IsNew)
        (start_registration-OfDevice env IsNew ops.set) cs).keeps
      new l (begin _ refl)

-- On a clock that moves on at every reading and never goes back: whatever an application calls on a
-- new device and on the data services that it makes of it, in any order and whatever becomes of the
-- calls, also a panic or a run that does not end, the counter of timeouts and the number of
-- interventions of its network fit into a byte, the interventions are counted from 1, the instants
-- that are kept for the checks lie in the past, and each of the three domains is what reports at
-- strictly rising times leave of a new status.
pub perform_all-bounds :
    (env : Env) {S Sock T U : Type 0} (ops : Surroundings S Sock T U)
    → IsAdvancing env
    → IsMonotone env
    → (cs : List (Call S)) (E : Type 0) (l : Log)
    → let r = perform_all env ops {E = E} cs new l in
      let n = r.1.network in
      ((n.at_tx.consecutive_timeouts ≤ 255)
        × (1 ≤ n.status.registration_interventions)
        × (n.status.registration_interventions ≤ 255)
        × IsPast env r.2 n.status.reg_check_time
        × IsPast env r.2 n.status.reg_start_time
        × IsPast env r.2 n.status.imsi_check_time)
      × (Replays n.status.csd × Replays n.status.psd × Replays n.status.eps)
perform_all-bounds env ops advancing monotone cs E l =
    let r = perform_all-Reachable env ops cs E l in
    (Reachable-bounds env advancing monotone _ _ r, Reachable-Replays env advancing monotone _ _ r)
