-- ===== src/Data/Closing.antt =====
-- services/data/tcp_stack.rs: sockets that are closed or not there.
use fibocom_cellular_rs.Data.Ingress.{on_service_network}
use fibocom_cellular_rs.Prelude.{ℕ, ◌≡◌, arith, true, false, inr, some, ◌∷◌}
use fibocom_cellular_rs.Command.{Bytes, Command, IpTransportLayer, SocketAddr}
use fibocom_cellular_rs.Env.{Env, Log, commands}
use fibocom_cellular_rs.Error.{NbError, SocketError}
use fibocom_cellular_rs.Effect.{ok, err, combinators}
use fibocom_cellular_rs.Network.{send_internal}
use fibocom_cellular_rs.Network.State.{send}
use fibocom_cellular_rs.Sockets.{TcpSetOps}
use fibocom_cellular_rs.Data.Ingress.{DataService}
use fibocom_cellular_rs.Data.Tcp.{close, connect, is_connected}
use fibocom_cellular_rs.Data.Stack.{with_sockets, send_or_unaddressable}
use fibocom_cellular_rs.Data.Tcp

-- Closing a socket of the set sends one command for it, and takes it out of the set whatever the
-- module answers.
pub close-remove :
    (env : Env) {S Sock : Type 0} (ops : TcpSetOps S Sock) (handle : ℕ) (d : DataService S)
    (l : Log) (s s' : S)
    → d.sockets ≡ some s
    → ops.remove handle s ≡ inr s'
    → ((close env ops handle d l).0 ≡ ok tt)
      × ((close env ops handle d l).1.sockets ≡ some s')
      × (commands (close env ops handle d l).2
          ≡ Command.ip_transport_layer (IpTransportLayer.close_socket handle) ∷ commands l)
unfolding close with_sockets send_internal send combinators on_service_network
close-remove env ops handle d l s s' h r = (ground arith, ground arith, ground arith)

-- On a socket of the set that is not connected a `send` fails as closed, with nothing sent.
pub send-closed :
    (env : Env) {S Sock : Type 0} (ops : TcpSetOps S Sock) (handle : ℕ) (buffer : Bytes)
    (d : DataService S) (l : Log) (s : S) (tcp : Sock)
    → d.sockets ≡ some s
    → ops.get handle s ≡ inr tcp
    → ops.is_connected tcp ≡ false
    → Tcp.send env ops handle buffer d l ≡ (err (NbError.other SocketError.socket_closed), d, l)
unfolding Tcp.send is_connected with_sockets combinators
send-closed env ops handle buffer d l s tcp h g c = ground arith

-- A `connect` that succeeds has found a socket that was created and not yet used, and leaves it
-- connected to the remote.
pub connect-created :
    (env : Env) {S Sock : Type 0} (ops : TcpSetOps S Sock) (handle : ℕ) (remote : SocketAddr)
    (d : DataService S) (l : Log) (s : S) (tcp : Sock)
    → d.sockets ≡ some s
    → ops.get handle s ≡ inr tcp
    → (connect env ops handle remote d l).0 ≡ ok tt
    → (ops.is_created tcp ≡ true)
      × ((connect env ops handle remote d l).1.sockets
          ≡ some (ops.put handle (ops.set_connected remote tcp) s))
unfolding connect with_sockets send_or_unaddressable combinators
connect-created env ops handle remote d l s tcp h g c = (ground arith, ground arith)
