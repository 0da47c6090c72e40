-- ===== src/Data/Udp.antt =====
-- services/data/udp_stack.rs: the UDP client stack on a data service.
use fibocom_cellular_rs.Prelude.{
  ℕ, false, not, none, List, [], ◌∷◌, ◌==◌, leb, if◌then◌else◌, length,
}
use fibocom_cellular_rs.Command.{Bytes, Command, IpTransportLayer, SocketProtocol, SocketAddr}
use fibocom_cellular_rs.Error.{SocketError, NbError}
use fibocom_cellular_rs.Env.{Env}
use fibocom_cellular_rs.Effect.{M, ◌>>=◌, ◌>>◌, pure, throw, when, ignore, map_err}
use fibocom_cellular_rs.Network.{send_internal}
use fibocom_cellular_rs.Sockets.{UdpSetOps}
use fibocom_cellular_rs.Data.Ingress.{DataService, on_service_network}
use fibocom_cellular_rs.Data.Stack.{
  egress_chunk_size, chunks, with_sockets, set_sockets, lift, or_closed, make_room,
  send_or_unaddressable,
}

module _ (env : Env) {S Udp : Type 0} (ops : UdpSetOps S Udp) where
  unfoldable pub socket : M (DataService S) SocketError ℕ
  socket = with_sockets λ s. do
    s' ← make_room (leb (ops.capacity s) (ops.len s)) (λ l. ops.recycle l s) s
    res ←
        send_or_unaddressable env
          (Command.ip_transport_layer (IpTransportLayer.create_socket SocketProtocol.udp none))
          false
    added ← lift (ops.add res.socket s')
    set_sockets added.1
    pure added.0

  -- Only the driver's own socket is bound; nothing is sent.
  unfoldable pub connect : ℕ → SocketAddr → M (DataService S) SocketError (Unit {0})
  connect handle remote = with_sockets λ s. do
    udp ← lift (ops.get handle s)
    udp' ← lift (ops.bind remote udp)
    set_sockets (ops.put handle udp' s)

  -- One chunk: announced with its receiver, then written, then acknowledged in full for this
  -- socket.
  unfoldable pub send_chunk : ℕ → Udp → Bytes → M (DataService S) SocketError (Unit {0})
  send_chunk handle udp chunk = do
    endpoint ← or_closed (ops.endpoint udp)
    send_or_unaddressable env
        (Command.ip_transport_layer
          (IpTransportLayer.prepare_udp_send_to_data_binary handle endpoint (length chunk)))
        false
    res ←
        send_or_unaddressable env
          (Command.ip_transport_layer (IpTransportLayer.udp_send_to_data_binary chunk)) false
    if not (res.length == length chunk)
        then throw SocketError.bad_length
        else when (not (res.socket == handle)) (throw SocketError.invalid_socket)

  unfoldable pub send_chunks : ℕ → Udp → List Bytes → M (DataService S) SocketError (Unit {0})
  send_chunks handle udp [] = pure tt
  send_chunks handle udp (chunk ∷ rest) = do
    send_chunk handle udp chunk
    send_chunks handle udp rest

  unfoldable pub send : ℕ → Bytes → M (DataService S) (NbError SocketError) (Unit {0})
  send handle buffer = map_err NbError.other (
      with_sockets λ s. do
        udp ← lift (ops.get handle s)
        if ops.is_open udp
            then send_chunks handle udp (chunks egress_chunk_size buffer)
            else throw SocketError.socket_closed)

  -- Into a buffer of `room` bytes. What was read is gone from the socket also if it has no
  -- endpoint.
  unfoldable pub receive : ℕ → ℕ → M (DataService S) (NbError SocketError) (Bytes × SocketAddr)
  receive handle room = map_err NbError.other (
      with_sockets λ s. do
        udp ← lift (ops.get handle s)
        got ← lift (ops.recv_slice room udp)
        set_sockets (ops.put handle got.1 s)
        endpoint ← or_closed (ops.endpoint got.1)
        pure (got.0, endpoint))

  -- Whatever the module answers, the socket is removed.
  unfoldable pub close : ℕ → M (DataService S) SocketError (Unit {0})
  close handle = with_sockets λ s. do
    ignore (
        on_service_network (
          send_internal env (Command.ip_transport_layer (IpTransportLayer.close_socket handle))
            false))
    s' ← lift (ops.remove handle s)
    set_sockets s'
