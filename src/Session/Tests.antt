-- ===== src/Session/Tests.antt =====
-- The theorems on an application at concrete surroundings.
use fibocom_cellular_rs.Prelude.{◌≤◌, Bool, true, ◌≢◌, refl, List, [], ◌∷◌, arith}
use fibocom_cellular_rs.Command.{Bytes, SocketAddr}
use fibocom_cellular_rs.Effect.{Fault, halt, combinators}
use fibocom_cellular_rs.Error.{DeviceError}
use fibocom_cellular_rs.Registration.{ConnectionState}
use fibocom_cellular_rs.Network.Reachable.{Replays}
use fibocom_cellular_rs.Network.Sound.{IsPast}
use fibocom_cellular_rs.Device.State.{new, on_network}
use fibocom_cellular_rs.Device.Spin.{set_socket_storage}
use fibocom_cellular_rs.Tests.{runs_spin}
use fibocom_cellular_rs.Session.{Surroundings, ServiceCall, Call, perform, perform_all}
use fibocom_cellular_rs.Session.Reached.{perform_all-bounds}
use fibocom_cellular_rs.Session.Attended.{perform_all-attended}
use fibocom_cellular_rs.Session.Ending.{IsShort, AllShort, AreShort, perform_all-ends}
use fibocom_cellular_rs.Text.Fitting.{FitsIn}
use fibocom_cellular_rs.Samples.{
  Sockets, dead_env, board_env, board_env-IsTimely, board_env-IsAdvancing, board_env-IsMonotone,
  set_ops, one_socket, one_datagram_socket, plain_text, board_env-IsBounded, internet,
  connected_device,
}

abbrev hello : Bytes
hello = b'h' ∷ b'e' ∷ b'l' ∷ b'l' ∷ b'o' ∷ []

abbrev remote : SocketAddr
remote = record { ip = 10 ∷ 0 ∷ 0 ∷ 1 ∷ []; port = 80 }

abbrev surroundings : Surroundings Sockets Bool Bool Bool
surroundings = record {
  set = set_ops;
  tcp = one_socket true;
  udp = one_datagram_socket remote;
  text = plain_text;
}

-- Sockets are given, a service is made and used, and the module is switched off.
abbrev calls : List (Call Sockets)
calls =
    Call.set_socket_storage []
    ∷ Call.data_service internet (
        ServiceCall.enable_ssl 0 hello true
        ∷ ServiceCall.tcp_socket
        ∷ ServiceCall.tcp_connect 3 remote
        ∷ ServiceCall.tcp_send 3 hello
        ∷ ServiceCall.tcp_close 3
        ∷ [])
    ∷ Call.hard_power_off
    ∷ []

perform_all-bounds_example :
    let r = perform_all board_env surroundings {E = DeviceError} calls new [] in
    let n = r.1.network in
    ((n.at_tx.consecutive_timeouts ≤ 255)
      × (1 ≤ n.status.registration_interventions)
      × (n.status.registration_interventions ≤ 255)
      × IsPast board_env r.2 n.status.reg_check_time
      × IsPast board_env r.2 n.status.reg_start_time
      × IsPast board_env r.2 n.status.imsi_check_time)
    × (Replays n.status.csd × Replays n.status.psd × Replays n.status.eps)
perform_all-bounds_example =
    perform_all-bounds board_env surroundings board_env-IsAdvancing board_env-IsMonotone calls
      DeviceError []

-- A device that is connected is given sockets and kept running.
abbrev rounds : List (Call Sockets)
rounds = Call.set_socket_storage [] ∷ Call.spin ∷ Call.initialize ∷ Call.spin ∷ []

perform_all-attended_example :
    (perform_all dead_env surroundings {E = DeviceError} rounds connected_device
      []).1.network.status.conn_state
    ≢ ConnectionState.disconnected
unfolding runs_spin perform_all perform set_socket_storage on_network combinators
perform_all-attended_example =
    perform_all-attended dead_env surroundings DeviceError rounds connected_device []
      (λ h e. ground arith) refl

perform_all-ends_example :
    (perform_all board_env surroundings {E = DeviceError} calls connected_device []).0
    ≢ halt Fault.panicked
unfolding IsShort AllShort AreShort FitsIn
perform_all-ends_example =
    perform_all-ends board_env surroundings board_env-IsTimely refl board_env-IsBounded
      (record { short = λ l t q r h. ground arith }) DeviceError calls
      (
        record { short_apn = omega arith; short_user_name = tt; short_password = tt },
        (omega arith, (tt, (tt, (tt, (tt, tt))))),
        tt,
      )
      connected_device [] Fault.panicked
