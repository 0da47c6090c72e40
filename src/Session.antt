-- ===== src/Session.antt =====
-- An application of the driver: a sequence of calls of the public functions of a device and, while
-- it has lent itself to a data service, of that service. The application drops the results.
pub mod Stacks
pub mod Texts
pub mod Powers
pub mod Reached
pub mod Attended
mod Tests
pub mod Ending
use fibocom_cellular_rs.Prelude.{ℕ, Bool, Option, List, [], ◌∷◌}
use fibocom_cellular_rs.Command.{Bytes, Command, SocketAddr}
use fibocom_cellular_rs.Error.{DataError, SocketError, DeviceError, NbError}
use fibocom_cellular_rs.Env.{Env}
use fibocom_cellular_rs.Effect.{either, M, ◌>>=◌, ◌>>◌, pure, attempt, ignore, modify}
use fibocom_cellular_rs.Sockets.{SocketSetOps, TcpSetOps, UdpSetOps}
use fibocom_cellular_rs.Text.{TextOps}
use fibocom_cellular_rs.Device.State.{Device}
use fibocom_cellular_rs.Device.Power
use fibocom_cellular_rs.Device.Setup
use fibocom_cellular_rs.Device.Spin
use fibocom_cellular_rs.Data.Context.{ApnInfo}
use fibocom_cellular_rs.Data.Ingress.{DataService}
use fibocom_cellular_rs.Data.Service.{on_service}
use fibocom_cellular_rs.Data.Service
use fibocom_cellular_rs.Data.Tcp
use fibocom_cellular_rs.Data.Udp
use fibocom_cellular_rs.Data.Dns.{AddrType}
use fibocom_cellular_rs.Data.Dns
use fibocom_cellular_rs.Data.Ssl

-- What the socket set and the texts offer.
pub record Surroundings (S Sock T U : Type 0) : Type 0 where
  pub set : SocketSetOps S Sock
  pub tcp : TcpSetOps S T
  pub udp : UdpSetOps S U
  pub text : TextOps

-- A call of a data service.
pub data ServiceCall : Type 0 where
  send_at : Command → ServiceCall
  tcp_socket : ServiceCall
  tcp_connect : ℕ → SocketAddr → ServiceCall
  tcp_is_connected : ℕ → ServiceCall
  tcp_send : ℕ → Bytes → ServiceCall
  tcp_receive : ℕ → ℕ → ServiceCall
  tcp_close : ℕ → ServiceCall
  udp_socket : ServiceCall
  udp_connect : ℕ → SocketAddr → ServiceCall
  udp_send : ℕ → Bytes → ServiceCall
  udp_receive : ℕ → ℕ → ServiceCall
  udp_close : ℕ → ServiceCall
  get_host_by_name : Bytes → AddrType → ServiceCall
  get_host_by_address : Bytes → ServiceCall
  import_certificate : ℕ → Bytes → Bytes → ServiceCall
  import_root_ca : ℕ → Bytes → Bytes → ServiceCall
  import_private_key : ℕ → Bytes → Bytes → Option Bytes → ServiceCall
  enable_ssl : ℕ → Bytes → Bool → ServiceCall

-- A call of a device. A data service is made, used by some calls and given back.
pub data Call (S : Type 0) : Type 0 where
  spin setup_at_commands initialize signal_strength : Call S
  send_at : Command → Call S
  power_state power_on hard_reset factory_reset soft_power_off hard_power_off : Call S
  set_socket_storage : S → Call S
  take_socket_storage : Call S
  data_service : ApnInfo → List ServiceCall → Call S

module _ (env : Env) {S Sock T U : Type 0} (ops : Surroundings S Sock T U) where
  unfoldable pub serve : {E : Type 0} → ServiceCall → M (DataService S) E (Unit {0})
  serve (ServiceCall.send_at c) = ignore (Service.send_at env c)
  serve ServiceCall.tcp_socket = ignore (Tcp.socket env ops.tcp)
  serve (ServiceCall.tcp_connect h remote) = ignore (Tcp.connect env ops.tcp h remote)
  serve (ServiceCall.tcp_is_connected h) = ignore (Tcp.is_connected env ops.tcp h)
  serve (ServiceCall.tcp_send h bytes) = ignore (Tcp.send env ops.tcp h bytes)
  serve (ServiceCall.tcp_receive h room) = ignore (Tcp.receive env ops.tcp h room)
  serve (ServiceCall.tcp_close h) = ignore (Tcp.close env ops.tcp h)
  serve ServiceCall.udp_socket = ignore (Udp.socket env ops.udp)
  serve (ServiceCall.udp_connect h remote) = ignore (Udp.connect env ops.udp h remote)
  serve (ServiceCall.udp_send h bytes) = ignore (Udp.send env ops.udp h bytes)
  serve (ServiceCall.udp_receive h room) = ignore (Udp.receive env ops.udp h room)
  serve (ServiceCall.udp_close h) = ignore (Udp.close env ops.udp h)
  serve (ServiceCall.get_host_by_name name type) =
      ignore (Dns.get_host_by_name env ops.text name type)
  serve (ServiceCall.get_host_by_address ip) = ignore (Dns.get_host_by_address env ops.text ip)
  serve (ServiceCall.import_certificate id name certificate) =
      ignore (Ssl.import_certificate env id name certificate)
  serve (ServiceCall.import_root_ca id name ca) = ignore (Ssl.import_root_ca env id name ca)
  serve (ServiceCall.import_private_key id name key password) =
      ignore (Ssl.import_private_key env id name key password)
  serve (ServiceCall.enable_ssl id hostname sni) = ignore (Ssl.enable_ssl env id hostname sni)

  unfoldable pub serve_all : {E : Type 0} → List ServiceCall → M (DataService S) E (Unit {0})
  serve_all [] = pure tt
  serve_all (c ∷ rest) = do serve c; serve_all rest

  unfoldable pub perform : {E : Type 0} → Call S → M (Device S) E (Unit {0})
  perform Call.spin = ignore (Spin.spin env ops.set)
  perform Call.setup_at_commands = ignore (Setup.setup_at_commands env ops.set)
  perform Call.initialize = ignore (Setup.initialize env ops.set)
  perform Call.signal_strength = ignore (Spin.signal_strength env ops.set)
  perform (Call.send_at c) = ignore (Spin.send_at env ops.set c)
  perform Call.power_state = ignore (Power.power_state env)
  perform Call.power_on = ignore (Power.power_on env env.spin_limit)
  perform Call.hard_reset = ignore (Power.hard_reset env env.spin_limit)
  perform Call.factory_reset = ignore (Power.factory_reset env env.spin_limit)
  perform Call.soft_power_off = ignore (Power.soft_power_off env)
  perform Call.hard_power_off = ignore (Power.hard_power_off env)
  perform (Call.set_socket_storage s) = modify (Spin.set_socket_storage env ops.set s)
  perform Call.take_socket_storage = modify λ d. (Spin.take_socket_storage d).0
  perform (Call.data_service apn_info calls) = do
    made ← attempt (Service.data_service env ops.set apn_info)
    either (λ _. pure tt) (λ _. on_service (serve_all calls)) made

  unfoldable pub perform_all : {E : Type 0} → List (Call S) → M (Device S) E (Unit {0})
  perform_all [] = pure tt
  perform_all (c ∷ rest) = do perform c; perform_all rest
