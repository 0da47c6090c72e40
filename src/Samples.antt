-- ===== src/Samples.antt =====
-- Concrete surroundings and states of the driver, for runs.
use fibocom_cellular_rs.Prelude.{
  ℕ, Bool, true, false, none, some, List, [], ◌∷◌, inl, inr, ◌⊎◌, length, leb, if◌then◌else◌, arith,
}
use fibocom_cellular_rs.Command.{
  Command, Response, IpTransportLayer, DeviceDataSecurity, SecurityOperation, SecurityDataType,
  SocketAddr,
}
use fibocom_cellular_rs.Config
use fibocom_cellular_rs.Error.{AtError}
use fibocom_cellular_rs.Env.{Env, IsAdvancing, IsMonotone, IsTimely}
use fibocom_cellular_rs.Registration.{Status, RegistrationState, ConnectionState}
use fibocom_cellular_rs.Network.{Network, ContextState}
use fibocom_cellular_rs.Sockets.{SocketType, SocketSetOps, TcpSetOps, UdpSetOps}
use fibocom_cellular_rs.Text.{TextOps, IsBounded}
use fibocom_cellular_rs.Device.State.{PowerState, State, Device}
use fibocom_cellular_rs.Data.Ingress.{DataService}
use fibocom_cellular_rs.Data.Context.{Apn, ApnInfo}

-- A module that never answers, on a board without pins. Every event takes a tick.
abbrev pub dead_env : Env
dead_env = record {
  tick_hz = 1;
  now = λ l. length l;
  send_retry = λ l c. inl AtError.timeout;
  default_attempts = 3;
  network_urc = λ l. none;
  device_urc = λ l. none;
  reset_pin = false;
  power_pin = false;
  vint_pin = none;
  flow_control = Config.flow_control;
  hex_mode = Config.hex_mode;
  string_from = λ n text. if leb (length text) n then some text else none;
  lara_r6 = false;
  sara_r4 = false;
  sara_r5 = true;
  toby_r2 = false;
  upsd_context_activation = false;
  spin_limit = 100;
}

-- The same with a power pin: a board on which every loop ends.
abbrev pub board_env : Env
board_env = record dead_env { power_pin = true }

pub board_env-IsAdvancing : IsAdvancing board_env
board_env-IsAdvancing = record { step = λ l. omega arith }

pub board_env-IsMonotone : IsMonotone board_env
board_env-IsMonotone = record { mono = λ e l. omega arith }

pub board_env-IsTimely : IsTimely board_env
board_env-IsTimely = record {
  advancing = board_env-IsAdvancing;
  monotone = board_env-IsMonotone;
  limit = omega arith;
}

-- What a module says that takes each write and each setting in full, hands over a letter at each
-- read, and answers nothing else.
abbrev pub taking : (c : Command) → AtError ⊎ Response c
taking (Command.ip_transport_layer (IpTransportLayer.write_socket_data_binary data_)) =
    inr (record { socket = 3; length = length data_ })
taking (Command.ip_transport_layer (IpTransportLayer.prepare_write_socket_data_binary s n)) = inr tt
taking (Command.ip_transport_layer (IpTransportLayer.set_socket_ssl_state s n)) = inr tt
taking (Command.ip_transport_layer (IpTransportLayer.udp_send_to_data_binary data_)) =
    inr (record { socket = 3; length = length data_ })
taking (Command.ip_transport_layer (IpTransportLayer.prepare_udp_send_to_data_binary s a n)) =
    inr tt
taking (Command.device_data_security (DeviceDataSecurity.prepare_security_data_import t n s p)) =
    inr tt
taking (Command.device_data_security (DeviceDataSecurity.send_security_data_import data_)) =
    inr (record {
      op_code = SecurityOperation.import_stream;
      data_type = SecurityDataType.client_private_key;
      internal_name = [];
      md5_string = [];
    })
taking (Command.device_data_security (DeviceDataSecurity.security_profile_manager p o)) = inr tt
taking (Command.ip_transport_layer (IpTransportLayer.read_socket_data s n)) =
    inr (record { socket = s; length = 1; payload = some (b'4' ∷ b'1' ∷ []) })
taking (Command.ip_transport_layer (IpTransportLayer.connect_socket s a)) = inr tt
taking c = inl AtError.timeout

abbrev pub taking_env : Env
taking_env = record dead_env { send_retry = λ l c. taking c }

-- A network that is registered and connected, with all checks done just now.
abbrev pub connected_status : RegistrationState
connected_status = record {
  reg_check_time = some 0;
  reg_start_time = some 0;
  imsi_check_time = some 0;
  conn_state = ConnectionState.connected;
  csd = record { status = Status.home; updated = some 0; started = some 0 };
  psd = record { status = Status.home; updated = some 0; started = some 0 };
  eps = record { status = Status.none; updated = none; started = none };
  registration_interventions = 1;
  check_imsi = false;
  cgi = record { cell_id = none; lac = none };
}

abbrev pub connected_network : Network
connected_network = record {
  status = connected_status;
  context_state = ContextState.active;
  at_tx = record { consecutive_timeouts = 0 };
}

-- The same, while it is still connecting and lacks service.
abbrev pub connecting_network : Network
connecting_network = record connected_network {
  status = record connected_status {
    conn_state = ConnectionState.connecting;
    csd = record { status = Status.searching; updated = some 0; started = some 0 };
  };
}

-- A set of sockets that are connected or not.
abbrev pub Sockets : Type 0
Sockets = List (ℕ × Bool)

abbrev pub connected_device : Device Sockets
connected_device = record {
  network = connected_network;
  state = State.fully_initialized;
  power_state = PowerState.on;
  sockets = none;
}

abbrev pub connecting_device : Device Sockets
connecting_device = record connected_device { network = connecting_network }

abbrev pub set_ops : SocketSetOps Sockets Bool
set_ops = record {
  prune = λ s. [];
  iter = λ s. s;
  write = λ s handle sock. (handle, sock) ∷ s;
  closed_by_remote = λ l sock. false;
  set_available_data = λ l n sock. sock;
  available_data = λ sock. 0;
  should_update_available_data = λ l sock. (false, sock);
  can_recv = λ sock. true;
  rx_window = λ sock. 16;
  get_type = λ sock. SocketType.tcp;
  rx_enqueue_slice = λ bytes sock. (length bytes, sock);
}

-- The same, with five bytes waiting at every socket.
abbrev pub waiting_ops : SocketSetOps Sockets Bool
waiting_ops = record set_ops { available_data = λ sock. 5 }

-- A set of one socket, under handle 3.
abbrev pub one_socket : Bool → TcpSetOps Sockets Bool
one_socket created = record {
  len = λ s. 1;
  capacity = λ s. 4;
  recycle = λ l s. (false, s);
  add = λ handle s. inr (handle, (handle, false) ∷ s);
  get = λ handle s. inr (elim s [ [] ↦ false | x ∷ xs ↦ x.1 ]);
  put = λ handle sock s. (handle, sock) ∷ [];
  remove = λ handle s. inr [];
  is_created = λ sock. created;
  set_connected = λ remote sock. true;
  is_connected = λ sock. sock;
  recv_slice = λ room sock. inr ([], sock);
}

abbrev pub service : Bool → DataService Sockets
service connected = record { network = connected_network; sockets = some ((3, connected) ∷ []) }

abbrev pub internet : ApnInfo
internet = record { apn = Apn.given (b'n' ∷ b'e' ∷ b't' ∷ []); user_name = none; password = none }

-- The same set as a store of UDP sockets, each of which is open and bound to `endpoint`.
abbrev pub one_datagram_socket : SocketAddr → UdpSetOps Sockets Bool
one_datagram_socket endpoint = record {
  len = λ s. 1;
  capacity = λ s. 4;
  recycle = λ l s. (false, s);
  add = λ handle s. inr (handle, (handle, false) ∷ s);
  get = λ handle s. inr (elim s [ [] ↦ false | x ∷ xs ↦ x.1 ]);
  put = λ handle sock s. (handle, sock) ∷ [];
  remove = λ handle s. inr [];
  bind = λ remote sock. inr true;
  is_open = λ sock. sock;
  endpoint = λ sock. some endpoint;
  recv_slice = λ room sock. inr ([], sock);
}

-- No text is an address.
abbrev pub plain_text : TextOps
plain_text = record { write_ip = λ ip. some ip; parse_ip = λ text. none }

-- The strings of these boards take what fits.
pub board_env-IsBounded : IsBounded board_env
board_env-IsBounded = record {
  fits = λ n text h. ground arith;
  overflows = λ n text h. ground arith;
}

pub taking_env-IsBounded : IsBounded taking_env
taking_env-IsBounded = record {
  fits = λ n text h. ground arith;
  overflows = λ n text h. ground arith;
}
