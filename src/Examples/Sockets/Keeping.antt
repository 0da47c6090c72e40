-- ===== src/Examples/Sockets/Keeping.antt =====
-- examples/sockets/src/main.rs: what `connect` leaves of the application's socket.
use fibocom_cellular_rs.Prelude.{ℕ, ◌≡◌, ◌≢◌, none, some, arith}
use fibocom_cellular_rs.Command.{SocketAddr}
use fibocom_cellular_rs.Env.{Log}
use fibocom_cellular_rs.Effect.{ok, err, combinators}
use fibocom_cellular_rs.Examples.Sockets.{
  TcpClientStack, NetworkError, Main, on_stack, ensure_socket, connect,
}

module _ {N : Type 0} (stack : TcpClientStack N) (rounds : ℕ) where
  ensure_socket-kept :
      (s : Main N) (l : Log)
      → ((sock : ℕ)
          → (ensure_socket stack rounds s l).0 ≡ ok sock
          → (ensure_socket stack rounds s l).1.socket ≡ some sock)
        × ((e : NetworkError)
            → (ensure_socket stack rounds s l).0 ≡ err e
            → (ensure_socket stack rounds s l).1.socket ≡ none)
  unfolding ensure_socket on_stack combinators
  ensure_socket-kept s l = (λ sock h. grind arith, λ e h. grind arith)

-- On any TCP client stack: where `connect` succeeds the application holds a socket, and where it
-- fails, for want of a socket or of a connection, it holds none, so that the next round starts
-- with a new one.
pub connect-socket :
    {N : Type 0} (stack : TcpClientStack N) (rounds : ℕ) (remote : SocketAddr) (s : Main N)
    (l : Log)
    → ((connect stack rounds remote s l).0 ≡ ok tt
        → (connect stack rounds remote s l).1.socket ≢ none)
      × ((e : NetworkError)
          → (connect stack rounds remote s l).0 ≡ err e
          → (connect stack rounds remote s l).1.socket ≡ none)
unfolding connect on_stack combinators
connect-socket stack rounds remote s l =
    let kept = ensure_socket-kept stack rounds s l in (λ h. grind arith, λ e h. grind arith)
