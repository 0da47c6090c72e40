-- ===== src/Session/Ending/Stacks.antt =====
-- services/data: no call of the socket stacks panics or runs on for ever.
use fibocom_cellular_rs.Prelude.{
  ℕ, ◌≡◌, Bool, Option, none, some, ◌⊎◌, inl, inr, List, [], ◌∷◌, arith,
}
use fibocom_cellular_rs.Command.{Bytes, Command, IpTransportLayer, SslTlsStatus, SocketAddr}
use fibocom_cellular_rs.Error.{SocketError}
use fibocom_cellular_rs.Env.{Env, Log}
use fibocom_cellular_rs.Effect.{M, Fault, halt}
use fibocom_cellular_rs.Effect.Ends.{Ends, ending}
use fibocom_cellular_rs.Network.Ending.{send_internal-Ends}
use fibocom_cellular_rs.Sockets.{TcpSetOps, UdpSetOps}
use fibocom_cellular_rs.Data.Ingress.{DataService}
use fibocom_cellular_rs.Data.Ending.{Ends-on_service_network}
use fibocom_cellular_rs.Data.Stack.{with_sockets, lift, or_closed, make_room, send_or_unaddressable}
use fibocom_cellular_rs.Data.Tcp
use fibocom_cellular_rs.Data.Udp

module _ (env : Env) {S : Type 0} where
  with_sockets-Ends :
      {A : Type 0} {body : S → M (DataService S) SocketError A}
      → ((s : S) → Ends (body s))
      → Ends (with_sockets body)
  unfolding with_sockets
  with_sockets-Ends {body = body} h = record { ends = λ d l x. go d l x d.sockets }
    where
      go :
          (d : DataService S) (l : Log) (x : Fault) (o : Option S)
          → (with_sockets (λ s _ _. body s d l) (record d { sockets = o }) l).0 ≡ halt x
          → ⊥
      go d l x none k = ground arith
      go d l x (some s) k = (h s).ends d l x k

  lift-Ends : {A : Type 0} (r : SocketError ⊎ A) → Ends {S = DataService S} (lift r)
  lift-Ends (inl e) = search ending
  lift-Ends (inr a) = search ending

  or_closed-Ends : {A : Type 0} (o : Option A) → Ends {S = DataService S} (or_closed o)
  or_closed-Ends none = search ending
  or_closed-Ends (some a) = search ending

  make_room-Ends :
      (full : Bool) (recycle : Log → Bool × S) (s : S) → Ends (make_room full recycle s)
  unfolding make_room
  make_room-Ends full recycle s = search ending depth 40

  pub send_or_unaddressable-Ends :
      (c : Command) (b : Bool) → Ends {S = DataService S} (send_or_unaddressable env c b)
  unfolding send_or_unaddressable
  send_or_unaddressable-Ends c b =
      search (ending, Ends-on_service_network, send_internal-Ends) depth 40

  -- The commands that are answered by nothing.
  ssl_state-Ends :
      (h : ℕ) (status : SslTlsStatus) (b : Bool)
      → Ends {S = DataService S} (
          send_or_unaddressable env
            (Command.ip_transport_layer (IpTransportLayer.set_socket_ssl_state h status))
            b)
  ssl_state-Ends h status b =
      send_or_unaddressable-Ends
        (Command.ip_transport_layer (IpTransportLayer.set_socket_ssl_state h status)) b

  connect_socket-Ends :
      (h : ℕ) (remote : SocketAddr) (b : Bool)
      → Ends {S = DataService S} (
          send_or_unaddressable env
            (Command.ip_transport_layer (IpTransportLayer.connect_socket h remote))
            b)
  connect_socket-Ends h remote b =
      send_or_unaddressable-Ends
        (Command.ip_transport_layer (IpTransportLayer.connect_socket h remote)) b

  prepare_write-Ends :
      (h n : ℕ) (b : Bool)
      → Ends {S = DataService S} (
          send_or_unaddressable env
            (Command.ip_transport_layer (IpTransportLayer.prepare_write_socket_data_binary h n))
            b)
  prepare_write-Ends h n b =
      send_or_unaddressable-Ends
        (Command.ip_transport_layer (IpTransportLayer.prepare_write_socket_data_binary h n)) b

  prepare_send_to-Ends :
      (h n : ℕ) (remote : SocketAddr) (b : Bool)
      → Ends {S = DataService S} (
          send_or_unaddressable env
            (Command.ip_transport_layer
              (IpTransportLayer.prepare_udp_send_to_data_binary h remote n))
            b)
  prepare_send_to-Ends h n remote b =
      send_or_unaddressable-Ends
        (Command.ip_transport_layer (IpTransportLayer.prepare_udp_send_to_data_binary h remote n)) b

  ruleset stack_rules = (
    ending, lift-Ends, or_closed-Ends, make_room-Ends, send_or_unaddressable-Ends, ssl_state-Ends,
    connect_socket-Ends, prepare_write-Ends, prepare_send_to-Ends, with_sockets-Ends,
    Ends-on_service_network, send_internal-Ends,
  )

  module _ {T : Type 0} (ops : TcpSetOps S T) where
    pub tcp_socket-Ends : Ends (Tcp.socket env ops)
    unfolding Tcp.socket
    tcp_socket-Ends = search stack_rules depth 60

    pub tcp_connect-Ends : (h : ℕ) (remote : SocketAddr) → Ends (Tcp.connect env ops h remote)
    unfolding Tcp.connect
    tcp_connect-Ends h remote = search stack_rules depth 60

    pub tcp_is_connected-Ends : (h : ℕ) → Ends (Tcp.is_connected env ops h)
    unfolding Tcp.is_connected
    tcp_is_connected-Ends h = search stack_rules depth 60

    tcp_send_chunk-Ends : (h : ℕ) (chunk : Bytes) → Ends (Tcp.send_chunk env ops h chunk)
    unfolding Tcp.send_chunk
    tcp_send_chunk-Ends h chunk = search stack_rules depth 60

    tcp_send_chunks-Ends : (h : ℕ) (cs : List Bytes) → Ends (Tcp.send_chunks env ops h cs)
    unfolding Tcp.send_chunks
    tcp_send_chunks-Ends h [] = search ending
    tcp_send_chunks-Ends h (c ∷ cs) =
        let ih = tcp_send_chunks-Ends h cs in search (stack_rules, tcp_send_chunk-Ends) depth 60

    pub tcp_send-Ends : (h : ℕ) (bytes : Bytes) → Ends (Tcp.send env ops h bytes)
    unfolding Tcp.send
    tcp_send-Ends h bytes =
        search (stack_rules, tcp_is_connected-Ends, tcp_send_chunks-Ends) depth 60

    pub tcp_receive-Ends : (h room : ℕ) → Ends (Tcp.receive env ops h room)
    unfolding Tcp.receive
    tcp_receive-Ends h room = search stack_rules depth 60

    pub tcp_close-Ends : (h : ℕ) → Ends (Tcp.close env ops h)
    unfolding Tcp.close
    tcp_close-Ends h = search stack_rules depth 60

  module _ {U : Type 0} (ops : UdpSetOps S U) where
    pub udp_socket-Ends : Ends (Udp.socket env ops)
    unfolding Udp.socket
    udp_socket-Ends = search stack_rules depth 60

    pub udp_connect-Ends : (h : ℕ) (remote : SocketAddr) → Ends (Udp.connect env ops h remote)
    unfolding Udp.connect
    udp_connect-Ends h remote = search stack_rules depth 60

    udp_send_chunk-Ends :
        (h : ℕ) (udp : U) (chunk : Bytes) → Ends (Udp.send_chunk env ops h udp chunk)
    unfolding Udp.send_chunk
    udp_send_chunk-Ends h udp chunk = search stack_rules depth 60

    udp_send_chunks-Ends :
        (h : ℕ) (udp : U) (cs : List Bytes) → Ends (Udp.send_chunks env ops h udp cs)
    unfolding Udp.send_chunks
    udp_send_chunks-Ends h udp [] = search ending
    udp_send_chunks-Ends h udp (c ∷ cs) =
        let ih = udp_send_chunks-Ends h udp cs in search (stack_rules, udp_send_chunk-Ends) depth 60

    pub udp_send-Ends : (h : ℕ) (bytes : Bytes) → Ends (Udp.send env ops h bytes)
    unfolding Udp.send
    udp_send-Ends h bytes = search (stack_rules, udp_send_chunks-Ends) depth 60

    pub udp_receive-Ends : (h room : ℕ) → Ends (Udp.receive env ops h room)
    unfolding Udp.receive
    udp_receive-Ends h room = search stack_rules depth 60

    pub udp_close-Ends : (h : ℕ) → Ends (Udp.close env ops h)
    unfolding Udp.close
    udp_close-Ends h = search stack_rules depth 60
