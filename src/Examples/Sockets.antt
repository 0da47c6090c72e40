-- ===== src/Examples/Sockets.antt =====
-- examples/sockets/src/main.rs: an application that keeps one TCP socket connected. It is written
-- for any TCP client stack, here on a state `N`. What is logged is left out.
pub mod Keeping
pub mod Driver
pub mod Running
use fibocom_cellular_rs.Prelude.{ℕ, zero, suc, Bool, true, false, Option, none, some, ◌⊎◌, inl, inr}
use fibocom_cellular_rs.Command.{Bytes, SocketAddr}
use fibocom_cellular_rs.Error.{SocketError, NbError}
use fibocom_cellular_rs.Effect.{
  either, M, ◌>>=◌, ◌>>◌, pure, throw, panic, diverge, get, attempt, ignore, modify, map_err,
}

-- embedded_nal::TcpClientStack
pub record TcpClientStack (N : Type 0) : Type 0 where
  pub socket : M N SocketError ℕ
  pub connect : ℕ → SocketAddr → M N (NbError SocketError) (Unit {0})
  pub is_connected : ℕ → M N SocketError Bool
  pub send : ℕ → Bytes → M N (NbError SocketError) ℕ
  pub receive : ℕ → (room : ℕ) → M N (NbError SocketError) Bytes
  pub close : ℕ → M N SocketError (Unit {0})

pub data NetworkError : Type 0 where
  socket_open socket_connect socket_closed : NetworkError

-- The application's socket, and the network that it is on.
pub record Main (N : Type 0) : Type 0 where
  pub socket : Option ℕ
  pub network : N

unfoldable pub on_stack : {N E A : Type 0} → M N E A → M (Main N) E A
on_stack m s l = let r = m s.network l in (r.0, record s { network = r.1 }, r.2)

abbrev pub set_socket : {N E : Type 0} → Option ℕ → M (Main N) E (Unit {0})
set_socket socket = modify λ s. record s { socket = socket }

-- `nb::block!`: so many rounds at most.
unfoldable pub block : {N E A : Type 0} → ℕ → M N (NbError E) A → M N E A
block zero m = diverge
block (suc rounds) m = do
  result ← attempt m
  let again = block rounds m
  either (λ e. elim e [ NbError.would_block ↦ again | NbError.other e' ↦ throw e' ]) pure result

module _ {N : Type 0} (stack : TcpClientStack N) (rounds : ℕ) where
  -- The socket that there is, or a new one.
  unfoldable pub ensure_socket : M (Main N) NetworkError ℕ
  ensure_socket = do
    s ← get
    elim s.socket [
      | some sock ↦ pure sock
      | none ↦ (do
        sock ← map_err (λ _. NetworkError.socket_open) (on_stack stack.socket)
        set_socket (some sock)
        pure sock)
    ]

  unfoldable pub connect : SocketAddr → M (Main N) NetworkError (Unit {0})
  connect socket_addr = do
    sock ← ensure_socket
    result ← attempt (on_stack (block rounds (stack.connect sock socket_addr)))
    either (λ _. (do set_socket none; throw NetworkError.socket_connect)) pure result

  unfoldable pub is_connected : M (Main N) NetworkError Bool
  is_connected = do
    s ← get
    elim s.socket [
      | none ↦ throw NetworkError.socket_closed
      | some sock ↦ map_err (λ _. NetworkError.socket_closed) (on_stack (stack.is_connected sock))
    ]

  -- `.expect("cannot close socket")`
  unfoldable pub recycle : Option ℕ → M (Main N) NetworkError (Unit {0})
  recycle none = panic
  recycle (some sock) = do
    set_socket none
    result ← attempt (on_stack (stack.close sock))
    either (λ _. panic) pure result

  -- What the loop does for a socket that is connected, is not, or is not there.
  unfoldable pub reconnect : SocketAddr → NetworkError ⊎ Bool → M (Main N) NetworkError (Unit {0})
  reconnect socket_addr (inr false) = do s ← get; recycle s.socket
  reconnect socket_addr (inl _) = ignore (connect socket_addr)
  reconnect socket_addr (inr true) = pure tt

  unfoldable pub exchange : (message : Bytes) → Option ℕ → M (Main N) NetworkError (Unit {0})
  exchange message none = pure tt
  exchange message (some sock) = do
    ignore (on_stack (block rounds (stack.send sock message)))
    ignore (on_stack (block rounds (stack.receive sock 32)))

  -- The closure of the loop in `main`: one round on a data service.
  unfoldable pub round : SocketAddr → (message : Bytes) → M (Main N) NetworkError (Unit {0})
  round socket_addr message = do
    connected ← attempt is_connected
    reconnect socket_addr connected
    s ← get
    exchange message s.socket
