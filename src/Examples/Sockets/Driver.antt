-- ===== src/Examples/Sockets/Driver.antt =====
-- examples/sockets/src/main.rs: the application on the driver's own TCP stack.
use fibocom_cellular_rs.Prelude.{ℕ, suc, ◌≡◌, ◌≢◌, refl, Bool, Option, none, some, inl, inr, arith}
use fibocom_cellular_rs.Command.{Bytes, SocketAddr}
use fibocom_cellular_rs.Error.{SocketError, NbError}
use fibocom_cellular_rs.Env.{Env, Log}
use fibocom_cellular_rs.Effect.{M, Fault, ok, err, halt, map_err, combinators}
use fibocom_cellular_rs.Effect.Ends.{Ends, ending}
use fibocom_cellular_rs.Sockets.{TcpSetOps}
use fibocom_cellular_rs.Network.{send_internal, send, handle_urc}
use fibocom_cellular_rs.Data.Ingress.{DataService, on_service_network}
use fibocom_cellular_rs.Data.Stack.{with_sockets}
use fibocom_cellular_rs.Data.Tcp
use fibocom_cellular_rs.Session.Ending.Stacks.{
  tcp_socket-Ends, tcp_connect-Ends, tcp_is_connected-Ends, tcp_send-Ends, tcp_receive-Ends,
}
use fibocom_cellular_rs.Examples.Sockets.{
  TcpClientStack, Main, on_stack, block, ensure_socket, connect, is_connected, recycle, reconnect,
  exchange, round,
}

-- `impl TcpClientStack for DataService`
unfoldable pub tcp_stack : {S T : Type 0} → Env → TcpSetOps S T → TcpClientStack (DataService S)
tcp_stack env ops = record {
  socket = Tcp.socket env ops;
  connect = λ handle remote. map_err NbError.other (Tcp.connect env ops handle remote);
  is_connected = Tcp.is_connected env ops;
  send = Tcp.send env ops;
  receive = Tcp.receive env ops;
  close = Tcp.close env ops;
}

-- A socket that is found can be removed.
pub record IsRemovable {S T : Type 0} (ops : TcpSetOps S T) : Type 0 where
  pub removes :
      (handle : ℕ) (s : S) (tcp : T) (e : SocketError)
      → ops.get handle s ≡ inr tcp
      → ops.remove handle s ≢ inl e

Ends-on_stack : {N E A : Type 0} {m : M N E A} → Ends m → Ends (on_stack m)
unfolding on_stack
Ends-on_stack h = record { ends = λ s l x e. h.ends s.network l x e }

-- What never asks to be called again is called once.
Ends-block :
    {N A : Type 0} {m : M N (NbError SocketError) A} (rounds : ℕ)
    → Ends m
    → ((s : N) (l : Log) → (m s l).0 ≢ err NbError.would_block)
    → Ends (block (suc rounds) m)
unfolding block combinators
Ends-block {m = m} rounds h once = record {
  ends = λ s l x e. let run = h.ends s l x in let answered = once s l in grind arith;
}

module _ (env : Env) {S T : Type 0} (ops : TcpSetOps S T) (rounds : ℕ) where
  connect_block-Ends :
      (handle : ℕ) (remote : SocketAddr)
      → Ends (block (suc rounds) ((tcp_stack env ops).connect handle remote))
  unfolding tcp_stack combinators
  connect_block-Ends handle remote =
      Ends-block rounds (search (ending, tcp_connect-Ends)) λ s l h. ground arith

  send_block-Ends :
      (handle : ℕ) (message : Bytes)
      → Ends (block (suc rounds) ((tcp_stack env ops).send handle message))
  unfolding tcp_stack Tcp.send combinators
  send_block-Ends handle message =
      Ends-block rounds (tcp_send-Ends env ops handle message) λ s l h. ground arith

  receive_block-Ends :
      (handle room : ℕ) → Ends (block (suc rounds) ((tcp_stack env ops).receive handle room))
  unfolding tcp_stack Tcp.receive combinators
  receive_block-Ends handle room =
      Ends-block rounds (tcp_receive-Ends env ops handle room) λ s l h. ground arith

  ensure_socket-Ends : Ends (ensure_socket (tcp_stack env ops) (suc rounds))
  unfolding ensure_socket tcp_stack combinators
  ensure_socket-Ends = record {
    ends =
        λ s l x h. let made = (Ends-on_stack (tcp_socket-Ends env ops)).ends s l x in grind arith;
  }

  connect-Ends : (remote : SocketAddr) → Ends (connect (tcp_stack env ops) (suc rounds) remote)
  unfolding connect
  connect-Ends remote =
      search (ending, ensure_socket-Ends, connect_block-Ends, Ends-on_stack) depth 40

  -- An answer of `is_connected` changes nothing.
  is_connected-state :
      (s : Main (DataService S)) (l : Log) (b : Bool)
      → (is_connected (tcp_stack env ops) (suc rounds) s l).0 ≡ ok b
      → is_connected (tcp_stack env ops) (suc rounds) s l ≡ (ok b, s, l)
  unfolding is_connected tcp_stack on_stack Tcp.is_connected with_sockets combinators
  is_connected-state s l b h = grind arith

  -- It comes from a socket that can be closed.
  recycle-ends :
      (s : Main (DataService S)) (l : Log) (b : Bool) (x : Fault)
      → IsRemovable ops
      → (is_connected (tcp_stack env ops) (suc rounds) s l).0 ≡ ok b
      → (recycle (tcp_stack env ops) (suc rounds) s.socket s l).0 ≢ halt x
  unfolding is_connected recycle tcp_stack on_stack Tcp.is_connected Tcp.close with_sockets
      on_service_network send_internal send handle_urc combinators
  recycle-ends s l b x removable h k = let removes = removable.removes in grind arith

  exchange-ok :
      (message : Bytes) (o : Option ℕ) (s : Main (DataService S)) (l : Log)
      → (exchange (tcp_stack env ops) (suc rounds) message o s l).0 ≡ ok tt
  unfolding exchange combinators
  exchange-ok message none s l = refl
  exchange-ok message (some sock) s l =
      let sent = (Ends-on_stack (send_block-Ends sock message)).ends in
      let received = (Ends-on_stack (receive_block-Ends sock 32)).ends in grind arith

  is_connected-Ends : Ends (is_connected (tcp_stack env ops) (suc rounds))
  unfolding is_connected tcp_stack combinators
  is_connected-Ends = record {
    ends = λ s l x h.
        let asked = λ (sock : ℕ). (Ends-on_stack (tcp_is_connected-Ends env ops sock)).ends s l x in
        grind arith;
  }

  recycle-ok :
      (s : Main (DataService S)) (l : Log) (b : Bool)
      → IsRemovable ops
      → (is_connected (tcp_stack env ops) (suc rounds) s l).0 ≡ ok b
      → (recycle (tcp_stack env ops) (suc rounds) s.socket s l).0 ≡ ok tt
  unfolding recycle combinators
  recycle-ok s l b removable h =
      let ends = (λ (x : Fault). recycle-ends s l b x removable h) in grind arith

-- On the driver's own stack, if a socket that is found can be removed, every round of the
-- application comes to its end without a panic: the socket that it closes is always there, and no
-- call asks to be made again. This holds whatever the module answers and whatever the socket is.
pub round-ok :
    (env : Env) {S T : Type 0} (ops : TcpSetOps S T) (rounds : ℕ) (remote : SocketAddr)
    (message : Bytes) (s : Main (DataService S)) (l : Log)
    → IsRemovable ops
    → (round (tcp_stack env ops) (suc rounds) remote message s l).0 ≡ ok tt
unfolding round reconnect combinators
round-ok env ops rounds remote message s l removable =
    let ends = (is_connected-Ends env ops rounds).ends s l in
    let same = is_connected-state env ops rounds s l in
    let recycled = (λ (b : Bool). recycle-ok env ops rounds s l b removable) in
    let connects = (connect-Ends env ops rounds remote).ends in
    let exchanged = exchange-ok env ops rounds message in grind arith
