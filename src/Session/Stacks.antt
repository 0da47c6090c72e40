-- ===== src/Session/Stacks.antt =====
-- services/data: whatever tcp_stack.rs and udp_stack.rs do, the network of a data service is one
-- that the driver reaches.
use fibocom_cellular_rs.Prelude.{ℕ, Bool, Option, none, some, ◌⊎◌, inl, inr, List, [], ◌∷◌}
use fibocom_cellular_rs.Command.{Bytes, Command, IpTransportLayer, SslTlsStatus, SocketAddr}
use fibocom_cellular_rs.Error.{SocketError}
use fibocom_cellular_rs.Env.{Env, Log}
use fibocom_cellular_rs.Effect.{M, modify}
use fibocom_cellular_rs.Effect.Laws.{Keeps, keeping}
use fibocom_cellular_rs.Network.Reachable.{World}
use fibocom_cellular_rs.Network.Reaching.{send_internal-IsReached}
use fibocom_cellular_rs.Sockets.{TcpSetOps, UdpSetOps}
use fibocom_cellular_rs.Data.Ingress.{DataService}
use fibocom_cellular_rs.Data.Reaching.{OfService, on_service_network-OfService}
use fibocom_cellular_rs.Data.Stack.{
  with_sockets, set_sockets, lift, or_closed, make_room, send_or_unaddressable,
}
use fibocom_cellular_rs.Data.Tcp
use fibocom_cellular_rs.Data.Udp

module _ (env : Env) (from : World → Type 0) {S : Type 0} where
  set_sockets-OfService : {E : Type 0} (s : S) → Keeps {E = E} (OfService env from) (set_sockets s)
  unfolding modify
  set_sockets-OfService s = record { keeps = λ d l r. r }

  with_sockets-OfService :
      {A : Type 0} {body : S → M (DataService S) SocketError A}
      → ((s : S) → Keeps (OfService env from) (body s))
      → Keeps (OfService env from) (with_sockets body)
  unfolding with_sockets
  with_sockets-OfService {body = body} h = record { keeps = λ d l r. go d l r d.sockets }
    where
      go :
          (d : DataService S) (l : Log)
          → OfService env from d l
          → (o : Option S)
          → let x = with_sockets (λ s _ _. body s d l) (record d { sockets = o }) l in
            OfService env from x.1 x.2
      go d l r none = r
      go d l r (some s) = (h s).keeps d l r

  lift-OfService :
      {A : Type 0} (r : SocketError ⊎ A) → Keeps {S = DataService S} (OfService env from) (lift r)
  lift-OfService (inl e) = search keeping
  lift-OfService (inr a) = search keeping

  or_closed-OfService :
      {A : Type 0} (o : Option A) → Keeps {S = DataService S} (OfService env from) (or_closed o)
  or_closed-OfService none = search keeping
  or_closed-OfService (some a) = search keeping

  ruleset set_rules = (keeping, set_sockets-OfService, lift-OfService, or_closed-OfService)

  make_room-OfService :
      (full : Bool) (recycle : Log → Bool × S) (s : S)
      → Keeps (OfService env from) (make_room full recycle s)
  unfolding make_room
  make_room-OfService full recycle s = search set_rules depth 40

  send_or_unaddressable-OfService :
      (c : Command) (b : Bool)
      → Keeps {S = DataService S} (OfService env from) (send_or_unaddressable env c b)
  unfolding send_or_unaddressable
  send_or_unaddressable-OfService c b =
      search (keeping, on_service_network-OfService, send_internal-IsReached) depth 40

  -- The commands that are answered by nothing.
  ssl_state-OfService :
      (h : ℕ) (status : SslTlsStatus) (b : Bool)
      → Keeps {S = DataService S} (OfService env from) (
          send_or_unaddressable env
            (Command.ip_transport_layer (IpTransportLayer.set_socket_ssl_state h status))
            b)
  ssl_state-OfService h status b =
      send_or_unaddressable-OfService
        (Command.ip_transport_layer (IpTransportLayer.set_socket_ssl_state h status)) b

  connect_socket-OfService :
      (h : ℕ) (remote : SocketAddr) (b : Bool)
      → Keeps {S = DataService S} (OfService env from) (
          send_or_unaddressable env
            (Command.ip_transport_layer (IpTransportLayer.connect_socket h remote))
            b)
  connect_socket-OfService h remote b =
      send_or_unaddressable-OfService
        (Command.ip_transport_layer (IpTransportLayer.connect_socket h remote)) b

  prepare_write-OfService :
      (h n : ℕ) (b : Bool)
      → Keeps {S = DataService S} (OfService env from) (
          send_or_unaddressable env
            (Command.ip_transport_layer (IpTransportLayer.prepare_write_socket_data_binary h n))
            b)
  prepare_write-OfService h n b =
      send_or_unaddressable-OfService
        (Command.ip_transport_layer (IpTransportLayer.prepare_write_socket_data_binary h n)) b

  prepare_send_to-OfService :
      (h n : ℕ) (remote : SocketAddr) (b : Bool)
      → Keeps {S = DataService S} (OfService env from) (
          send_or_unaddressable env
            (Command.ip_transport_layer
              (IpTransportLayer.prepare_udp_send_to_data_binary h remote n))
            b)
  prepare_send_to-OfService h n remote b =
      send_or_unaddressable-OfService
        (Command.ip_transport_layer (IpTransportLayer.prepare_udp_send_to_data_binary h remote n)) b

  ruleset stack_rules = (
    set_rules, make_room-OfService, send_or_unaddressable-OfService, ssl_state-OfService,
    connect_socket-OfService, prepare_write-OfService, prepare_send_to-OfService,
    with_sockets-OfService, on_service_network-OfService, send_internal-IsReached,
  )

  module _ {T : Type 0} (ops : TcpSetOps S T) where
    pub tcp_socket-OfService : Keeps (OfService env from) (Tcp.socket env ops)
    unfolding Tcp.socket
    tcp_socket-OfService = search stack_rules depth 60

    pub tcp_connect-OfService :
        (h : ℕ) (remote : SocketAddr) → Keeps (OfService env from) (Tcp.connect env ops h remote)
    unfolding Tcp.connect
    tcp_connect-OfService h remote = search stack_rules depth 60

    pub tcp_is_connected-OfService :
        (h : ℕ) → Keeps (OfService env from) (Tcp.is_connected env ops h)
    unfolding Tcp.is_connected
    tcp_is_connected-OfService h = search stack_rules depth 60

    tcp_send_chunk-OfService :
        (h : ℕ) (chunk : Bytes) → Keeps (OfService env from) (Tcp.send_chunk env ops h chunk)
    unfolding Tcp.send_chunk
    tcp_send_chunk-OfService h chunk = search stack_rules depth 60

    tcp_send_chunks-OfService :
        (h : ℕ) (cs : List Bytes) → Keeps (OfService env from) (Tcp.send_chunks env ops h cs)
    unfolding Tcp.send_chunks
    tcp_send_chunks-OfService h [] = search keeping
    tcp_send_chunks-OfService h (c ∷ cs) =
        let ih = tcp_send_chunks-OfService h cs in
        search (stack_rules, tcp_send_chunk-OfService) depth 60

    pub tcp_send-OfService :
        (h : ℕ) (bytes : Bytes) → Keeps (OfService env from) (Tcp.send env ops h bytes)
    unfolding Tcp.send
    tcp_send-OfService h bytes =
        search (stack_rules, tcp_is_connected-OfService, tcp_send_chunks-OfService) depth 60

    pub tcp_receive-OfService :
        (h room : ℕ) → Keeps (OfService env from) (Tcp.receive env ops h room)
    unfolding Tcp.receive
    tcp_receive-OfService h room = search stack_rules depth 60

    pub tcp_close-OfService : (h : ℕ) → Keeps (OfService env from) (Tcp.close env ops h)
    unfolding Tcp.close
    tcp_close-OfService h = search stack_rules depth 60

  module _ {U : Type 0} (ops : UdpSetOps S U) where
    pub udp_socket-OfService : Keeps (OfService env from) (Udp.socket env ops)
    unfolding Udp.socket
    udp_socket-OfService = search stack_rules depth 60

    pub udp_connect-OfService :
        (h : ℕ) (remote : SocketAddr) → Keeps (OfService env from) (Udp.connect env ops h remote)
    unfolding Udp.connect
    udp_connect-OfService h remote = search stack_rules depth 60

    udp_send_chunk-OfService :
        (h : ℕ) (udp : U) (chunk : Bytes)
        → Keeps (OfService env from) (Udp.send_chunk env ops h udp chunk)
    unfolding Udp.send_chunk
    udp_send_chunk-OfService h udp chunk = search stack_rules depth 60

    udp_send_chunks-OfService :
        (h : ℕ) (udp : U) (cs : List Bytes)
        → Keeps (OfService env from) (Udp.send_chunks env ops h udp cs)
    unfolding Udp.send_chunks
    udp_send_chunks-OfService h udp [] = search keeping
    udp_send_chunks-OfService h udp (c ∷ cs) =
        let ih = udp_send_chunks-OfService h udp cs in
        search (stack_rules, udp_send_chunk-OfService) depth 60

    pub udp_send-OfService :
        (h : ℕ) (bytes : Bytes) → Keeps (OfService env from) (Udp.send env ops h bytes)
    unfolding Udp.send
    udp_send-OfService h bytes = search (stack_rules, udp_send_chunks-OfService) depth 60

    pub udp_receive-OfService :
        (h room : ℕ) → Keeps (OfService env from) (Udp.receive env ops h room)
    unfolding Udp.receive
    udp_receive-OfService h room = search stack_rules depth 60

    pub udp_close-OfService : (h : ℕ) → Keeps (OfService env from) (Udp.close env ops h)
    unfolding Udp.close
    udp_close-OfService h = search stack_rules depth 60
