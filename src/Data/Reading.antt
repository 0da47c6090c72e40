-- ===== src/Data/Reading.antt =====
-- services/data/mod.rs: what `socket_ingress_all` does for one TCP socket with data waiting.
use fibocom_cellular_rs.Prelude.{
  ℕ, ◌≤◌, ◌<◌, ◌/◌, ◌≡◌, ◌≢◌, refl, sym, subst, true, none, some, Option, ◌⊎◌, inl, inr, ◌∷◌,
  length, arith,
}
use fibocom_cellular_rs.Command.{Bytes, Command, SocketData, IpTransportLayer}
use fibocom_cellular_rs.Env.{Env, Event, Log, commands}
use fibocom_cellular_rs.Error.{AtError, DataError}
use fibocom_cellular_rs.Effect.{Outcome, ok, err, halt, ◌>>=◌, combinators}
use fibocom_cellular_rs.Hex.{HexResult, from_hex}
use fibocom_cellular_rs.Network.{send_internal}
use fibocom_cellular_rs.Network.State.{send}
use fibocom_cellular_rs.Sockets.{SocketType, SocketSetOps}
use fibocom_cellular_rs.Data.Ingress.{
  DataService, Read, on_service_network, send_data, demangle, requested_len, read_socket,
  enqueue_payload, enqueue, accept_read, ingress,
}

-- The answer is for this socket, and its text decodes to `bytes`.
pub record Brings (handle : ℕ) (r : Read) : Type 0 where
  pub text : Bytes
  pub bytes : Bytes
  pub socket : r.socket ≡ handle
  pub payload : r.payload ≡ some text
  pub decoded : from_hex text ≡ HexResult.ok bytes
  pub length_agrees : 0 < r.length → length text / 2 ≡ r.length

module _ (env : Env) {S Sock : Type 0} (ops : SocketSetOps S Sock) where
  accept_read-Brings :
      (handle : ℕ) (sock : Sock) (r : Read) (d : DataService S) (l : Log)
      → (accept_read env ops handle sock r d l).0 ≡ ok tt
      → Brings handle r
  unfolding accept_read enqueue enqueue_payload demangle combinators
  accept_read-Brings handle sock r d l h = go r.payload refl
    where
      decode :
          (text : Bytes)
          → r.payload ≡ some text
          → (x : HexResult Bytes) → from_hex text ≡ x
          → Brings handle r
      decode text e (HexResult.ok bytes) f = record {
        text = text;
        bytes = bytes;
        socket = grind arith;
        payload = e;
        decoded = f;
        length_agrees = λ p. grind arith;
      }
      decode text e (HexResult.err x) f = ground arith
      decode text e HexResult.panic f = ground arith

      go : (p : Option Bytes) → r.payload ≡ p → Brings handle r
      go none e = ground arith
      go (some text) e = decode text e (from_hex text) refl

  abbrev request : ℕ → ℕ → Command
  request handle n = Command.ip_transport_layer (IpTransportLayer.read_socket_data handle n)

  abbrev read_of : SocketData → Read
  read_of res = record { socket = res.socket; payload = res.payload; length = res.length }

  accept_read-log :
      (handle : ℕ) (sock : Sock) (r : Read) (d : DataService S) (l : Log)
      → (accept_read env ops handle sock r d l).2 ≡ l
  unfolding accept_read enqueue enqueue_payload demangle combinators
  accept_read-log handle sock r d l = grind arith

  read_socket-answer :
      (handle n : ℕ) (d : DataService S) (l : Log)
      → ((read_socket env ops SocketType.tcp handle n d l).2 ≡ Event.sent (request handle n) ∷ l)
        × ((r : Read)
            → (read_socket env ops SocketType.tcp handle n d l).0 ≡ ok r
            → (res : SocketData) × (env.send_retry l (request handle n) ≡ inr res)
              × (r ≡ read_of res))
  unfolding read_socket send_data send_internal send combinators on_service_network
  read_socket-answer handle n d l =
      (ground arith, λ r h. go r h (env.send_retry l (request handle n)) refl)
    where
      go :
          (r : Read)
          → (read_socket env ops SocketType.tcp handle n d l).0 ≡ ok r
          → (x : AtError ⊎ SocketData) → env.send_retry l (request handle n) ≡ x
          → (res : SocketData) × (env.send_retry l (request handle n) ≡ inr res) × (r ≡ read_of res)
      go r h (inl e) k = ground arith
      go r h (inr res) k = (res, k, ground arith)

  -- Reading and accepting, one after the other.
  read_then_accept :
      (handle n : ℕ) (sock : Sock) (d : DataService S) (l : Log)
      → let r =
          (read_socket env ops SocketType.tcp handle n >>= accept_read env ops handle sock) d l in
        (commands r.2 ≡ request handle n ∷ commands l)
        × (r.0 ≡ ok tt
            → (res : SocketData) × (env.send_retry l (request handle n) ≡ inr res)
              × Brings handle (read_of res))
  unfolding combinators
  read_then_accept handle n sock d l =
      let answer = read_socket-answer handle n d l in
      let quiet = λ (r : Read) (d : DataService S) (l : Log). accept_read-log handle sock r d l in
      (grind arith, λ h. go (read_socket env ops SocketType.tcp handle n d l).0 refl h)
    where
      go :
          (o : Outcome DataError Read)
          → (read_socket env ops SocketType.tcp handle n d l).0 ≡ o
          → ((read_socket env ops SocketType.tcp handle n >>= accept_read env ops handle sock) d
              l).0
            ≡ ok tt
          → (res : SocketData) × (env.send_retry l (request handle n) ≡ inr res)
            × Brings handle (read_of res)
      go (ok r) e h =
          let (res, sent, same) = (read_socket-answer handle n d l).1 r e in
          let at = read_socket env ops SocketType.tcp handle n d l in
          let brings = accept_read-Brings handle sock r at.1 at.2 (ground arith) in
          (res, sent, subst (Brings handle) same brings)
      go (err x) e h = ground arith
      go (halt x) e h = ground arith

  ingress-read :
      (handle : ℕ) (sock : Sock) (d : DataService S) (l : Log)
      → ops.available_data sock ≢ 0
      → ops.can_recv sock ≡ true
      → ops.get_type sock ≡ SocketType.tcp
      → ingress env ops handle sock d l
        ≡ (read_socket env ops SocketType.tcp handle (requested_len env ops sock)
              >>= accept_read env ops handle sock)
            d l
  unfolding ingress requested_len
  ingress-read handle sock d l some_data can tcp = grind arith

-- For a TCP socket that has data waiting and can receive, exactly one read is sent, for no more
-- than 256 bytes, nor more than are known to wait, nor more than the socket's buffer has room for.
-- If it succeeds, the module has answered for this very socket with hexadecimal text that decodes,
-- of the length that it has announced unless that is 0.
pub ingress-Brings :
    (env : Env) {S Sock : Type 0} (ops : SocketSetOps S Sock) (handle : ℕ) (sock : Sock)
    (d : DataService S) (l : Log)
    → ops.available_data sock ≢ 0
    → ops.can_recv sock ≡ true
    → ops.get_type sock ≡ SocketType.tcp
    → let n = requested_len env ops sock in
      let query = Command.ip_transport_layer (IpTransportLayer.read_socket_data handle n) in
      let r = ingress env ops handle sock d l in
      (commands r.2 ≡ query ∷ commands l)
      × (n ≤ 256)
      × (n ≤ ops.available_data sock)
      × (n ≤ ops.rx_window sock)
      × (r.0 ≡ ok tt
          → (res : SocketData) × (env.send_retry l query ≡ inr res)
            × Brings handle
                (record { socket = res.socket; payload = res.payload; length = res.length }))
unfolding requested_len
ingress-Brings env ops handle sock d l some_data can tcp =
    let r = read_then_accept env ops handle (requested_len env ops sock) sock d l in
    let same = ingress-read env ops handle sock d l some_data can tcp in
    (rw same r.0, ground arith, ground arith, ground arith, λ h. r.1 (rw (sym same) h))
