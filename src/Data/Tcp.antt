-- ===== src/Data/Tcp.antt =====
-- services/data/tcp_stack.rs: the TCP client stack on a data service.
use fibocom_cellular_rs.Prelude.{
  ℕ, Bool, true, false, not, none, List, [], ◌∷◌, ◌==◌, leb, if◌then◌else◌, length,
}
use fibocom_cellular_rs.Command.{
  Bytes, Command, IpTransportLayer, SocketProtocol, SslTlsStatus, SocketAddr,
}
use fibocom_cellular_rs.Error.{SocketError, NbError}
use fibocom_cellular_rs.Env.{Env}
use fibocom_cellular_rs.Effect.{M, ◌>>=◌, ◌>>◌, pure, throw, when, ignore, map_err}
use fibocom_cellular_rs.Network.{send_internal}
use fibocom_cellular_rs.Sockets.{TcpSetOps}
use fibocom_cellular_rs.Data.Ingress.{DataService, on_service_network}
use fibocom_cellular_rs.Data.Stack.{
  egress_chunk_size, chunks, with_sockets, set_sockets, lift, make_room, send_or_unaddressable,
}

module _ (env : Env) {S Tcp : Type 0} (ops : TcpSetOps S Tcp) where
  unfoldable pub socket : M (DataService S) SocketError ℕ
  socket = with_sockets λ s. do
    s' ← make_room (leb (ops.capacity s) (ops.len s)) (λ l. ops.recycle l s) s
    res ←
        send_or_unaddressable env
          (Command.ip_transport_layer (IpTransportLayer.create_socket SocketProtocol.tcp none)) true
    added ← lift (ops.add res.socket s')
    set_sockets added.1
    pure added.0

  unfoldable pub connect : ℕ → SocketAddr → M (DataService S) SocketError (Unit {0})
  connect handle remote = with_sockets λ s. do
    tcp ← lift (ops.get handle s)
    if ops.is_created tcp
        then (do
          send_or_unaddressable env
              (Command.ip_transport_layer
                (IpTransportLayer.set_socket_ssl_state handle (SslTlsStatus.enabled 0)))
              true
          send_or_unaddressable env
              (Command.ip_transport_layer (IpTransportLayer.connect_socket handle remote)) false
          set_sockets (ops.put handle (ops.set_connected remote tcp) s))
        else throw SocketError.illegal

  unfoldable pub is_connected : ℕ → M (DataService S) SocketError Bool
  is_connected handle =
      with_sockets λ s. do tcp ← lift (ops.get handle s); pure (ops.is_connected tcp)

  -- One chunk: announced, then written, then acknowledged in full for this socket.
  unfoldable pub send_chunk : ℕ → Bytes → M (DataService S) SocketError (Unit {0})
  send_chunk handle chunk = do
    send_or_unaddressable env
        (Command.ip_transport_layer
          (IpTransportLayer.prepare_write_socket_data_binary handle (length chunk)))
        false
    res ←
        send_or_unaddressable env
          (Command.ip_transport_layer (IpTransportLayer.write_socket_data_binary chunk)) false
    if not (res.length == length chunk)
        then throw SocketError.bad_length
        else when (not (res.socket == handle)) (throw SocketError.invalid_socket)

  unfoldable pub send_chunks : ℕ → List Bytes → M (DataService S) SocketError (Unit {0})
  send_chunks handle [] = pure tt
  send_chunks handle (chunk ∷ rest) = do send_chunk handle chunk; send_chunks handle rest

  unfoldable pub send : ℕ → Bytes → M (DataService S) (NbError SocketError) ℕ
  send handle buffer = map_err NbError.other (do
    connected ← is_connected handle
    if connected
        then (do send_chunks handle (chunks egress_chunk_size buffer); pure (length buffer))
        else throw SocketError.socket_closed)

  -- Into a buffer of `room` bytes.
  unfoldable pub receive : ℕ → ℕ → M (DataService S) (NbError SocketError) Bytes
  receive handle room = map_err NbError.other (
      with_sockets λ s. do
        tcp ← lift (ops.get handle s)
        got ← lift (ops.recv_slice room tcp)
        set_sockets (ops.put handle got.1 s)
        pure got.0)

  -- Whatever the module answers, the socket is removed.
  unfoldable pub close : ℕ → M (DataService S) SocketError (Unit {0})
  close handle = with_sockets λ s. do
    ignore (
        on_service_network (
          send_internal env (Command.ip_transport_layer (IpTransportLayer.close_socket handle))
            false))
    s' ← lift (ops.remove handle s)
    set_sockets s'
