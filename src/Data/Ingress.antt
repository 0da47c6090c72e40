-- ===== src/Data/Ingress.antt =====
-- services/data/mod.rs: `socket_ingress_all`, which moves what the module has received into the
-- sockets' buffers. The data of one read is hexadecimal text.
use fibocom_cellular_rs.Prelude.{
  ℕ, ◌/◌, false, not, ◌&&◌, Option, none, some, ◌⊎◌, inl, inr, List, [], ◌∷◌, ◌==◌, ltb, min,
  if◌then◌else◌, length,
}
use fibocom_cellular_rs.Command.{Bytes, Command, Response, SocketData, IpTransportLayer}
use fibocom_cellular_rs.Error.{NetworkError, DataError, SocketError, data_of_network}
use fibocom_cellular_rs.Env.{Env, Log}
use fibocom_cellular_rs.Effect.{
  M, ◌>>=◌, ◌>>◌, pure, throw, panic, get, log, when, attempt, ignore, map_err, modify,
}
use fibocom_cellular_rs.Network.{Network, send_internal}
use fibocom_cellular_rs.Sockets.{SocketType, SocketSetOps}
use fibocom_cellular_rs.Hex.{HexResult, from_hex}

-- `DataService`: it borrows both parts from the device.
pub record DataService (S : Type 0) : Type 0 where
  pub network : Network
  pub sockets : Option S

-- INGRESS_CHUNK_SIZE
abbrev pub ingress_chunk_size : ℕ
ingress_chunk_size = 256

unfoldable pub on_service_network : {S E A : Type 0} → M Network E A → M (DataService S) E A
on_service_network m d l = let r = m d.network l in (r.0, record d { network = r.1 }, r.2)

-- `self.network.…?`
unfoldable pub send_data :
    {S : Type 0} → Env → (c : Command) → M (DataService S) DataError (Response c)
send_data env c = map_err data_of_network (on_service_network (send_internal env c false))

-- What a read of a TCP or a UDP socket brings: handle, data and length.
pub record Read : Type 0 where
  pub socket : ℕ
  pub payload : Option Bytes
  pub length : ℕ

-- `hex::from_hex(..).map_err(|_| Error::InvalidHex)`
unfoldable pub demangle : {S : Type 0} → HexResult Bytes → M S DataError Bytes
demangle (HexResult.ok bytes) = pure bytes
demangle (HexResult.err _) = throw DataError.invalid_hex
demangle HexResult.panic = panic

module _ (env : Env) {S Sock : Type 0} (ops : SocketSetOps S Sock) where
  -- The socket under a handle is assigned.
  abbrev pub store : {E : Type 0} → ℕ → Sock → M (DataService S) E (Unit {0})
  store handle sock = modify λ d. record d {
    sockets = elim d.sockets [ none ↦ none | some s ↦ some (ops.write s handle sock) ];
  }

  -- How many bytes are asked for.
  unfoldable pub requested_len : Sock → ℕ
  requested_len sock = min (min (ops.available_data sock) ingress_chunk_size) (ops.rx_window sock)

  -- A module that does not answer has closed the socket.
  unfoldable pub refreshed : Log → Sock → NetworkError ⊎ SocketData → Sock
  refreshed l sock (inl _) = ops.closed_by_remote l sock
  refreshed l sock (inr res) = ops.set_available_data l res.length sock

  -- With no data known of, the module is asked at intervals.
  unfoldable pub update_available_data : ℕ → Sock → M (DataService S) DataError (Unit {0})
  update_available_data handle sock = do
    l ← log
    let (due, sock') = ops.should_update_available_data l sock
    store handle sock'
    when due (do
      reply ← attempt (
          on_service_network (
            send_internal env
              (Command.ip_transport_layer (IpTransportLayer.read_socket_data handle 0)) false))
      l' ← log
      store handle (refreshed l' sock' reply))

  unfoldable pub read_socket : SocketType → ℕ → ℕ → M (DataService S) DataError Read
  read_socket SocketType.tcp handle len = do
    res ← send_data env (Command.ip_transport_layer (IpTransportLayer.read_socket_data handle len))
    pure (record { socket = res.socket; payload = res.payload; length = res.length })
  read_socket SocketType.udp handle len = do
    res ←
        send_data env
          (Command.ip_transport_layer (IpTransportLayer.read_udp_socket_data handle len))
    pure (record { socket = res.socket; payload = res.payload; length = res.length })
  read_socket SocketType.other handle len = throw DataError.wrong_socket_type

  -- The data of a read into the buffer.
  unfoldable pub enqueue_payload :
      ℕ → Sock → ℕ → Option Bytes → M (DataService S) DataError (Unit {0})
  enqueue_payload handle sock len none = throw (DataError.socket SocketError.exhausted)
  enqueue_payload handle sock len (some text) =
      if ltb 0 len && not (length text / 2 == len) then throw DataError.bad_length else (do
        demangled ← demangle (from_hex text)
        store handle (ops.rx_enqueue_slice demangled sock).1)

  unfoldable pub enqueue : ℕ → Sock → Read → M (DataService S) DataError (Unit {0})
  enqueue handle sock res = enqueue_payload handle sock res.length res.payload

  -- A length of 0 clears the socket's count.
  unfoldable pub accept_read : ℕ → Sock → Read → M (DataService S) DataError (Unit {0})
  accept_read handle sock res =
      if res.socket == handle
      then (do
        l ← log
        let sock' = if res.length == 0 then ops.set_available_data l 0 sock else sock
        store handle sock'
        enqueue handle sock' res)
      else throw DataError.wrong_socket_type

  -- The closure for one socket.
  unfoldable pub ingress : ℕ → Sock → M (DataService S) DataError (Unit {0})
  unfolding requested_len
  ingress handle sock =
      if ops.available_data sock == 0
      then update_available_data handle sock
      else if ops.can_recv sock
      then (do
        res ← read_socket (ops.get_type sock) handle (requested_len sock)
        accept_read handle sock res)
      else throw DataError.buffer_full

  -- The sockets in turn; an error of one is dropped.
  unfoldable pub ingress_each : List (ℕ × Sock) → M (DataService S) DataError (Unit {0})
  ingress_each [] = pure tt
  ingress_each ((handle, sock) ∷ rest) = do ignore (ingress handle sock); ingress_each rest

  unfoldable pub ingress_all : Option S → M (DataService S) DataError (Unit {0})
  ingress_all none = throw DataError.socket_memory
  ingress_all (some s) = ingress_each (ops.iter s)

  unfoldable pub socket_ingress_all : M (DataService S) DataError (Unit {0})
  socket_ingress_all = do d ← get; ingress_all d.sockets
