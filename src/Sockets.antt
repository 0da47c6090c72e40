-- ===== src/Sockets.antt =====
-- The interface of the `ublox-sockets` crate, as far as the driver calls it. A socket set `S`
-- holds sockets under their handles; what the crate does with them is not part of the model. What
-- changes a socket may look at the clock, and so takes the log.
use fibocom_cellular_rs.Prelude.{
  ℕ, Bool, Option, List, ◌⊎◌, ◌==◌, if◌then◌else◌, none, some, [], ◌∷◌,
}
use fibocom_cellular_rs.Command.{Bytes, SocketAddr}
use fibocom_cellular_rs.Error.{SocketError}
use fibocom_cellular_rs.Env.{Log}

pub data SocketType : Type 0 where
  tcp udp other : SocketType

-- The set as an iterator of sockets `Sock` of any type. `write` is an assignment through the
-- reference that `iter_mut` hands out for a handle.
pub record SocketSetOps (S Sock : Type 0) : Type 0 where
  pub prune : S → S
  pub iter : S → List (ℕ × Sock)
  pub write : S → ℕ → Sock → S
  pub closed_by_remote : Log → Sock → Sock
  pub set_available_data : Log → ℕ → Sock → Sock
  pub available_data : Sock → ℕ
  pub should_update_available_data : Log → Sock → Bool × Sock
  pub can_recv : Sock → Bool
  pub rx_window : Sock → ℕ
  pub get_type : Sock → SocketType
  -- How many bytes found room, and the socket with them.
  pub rx_enqueue_slice : Bytes → Sock → ℕ × Sock

-- The set as a store of TCP sockets `Tcp`.
pub record TcpSetOps (S Tcp : Type 0) : Type 0 where
  pub len : S → ℕ
  pub capacity : S → ℕ
  pub recycle : Log → S → Bool × S
  pub add : ℕ → S → SocketError ⊎ (ℕ × S)
  pub get : ℕ → S → SocketError ⊎ Tcp
  pub put : ℕ → Tcp → S → S
  pub remove : ℕ → S → SocketError ⊎ S
  pub is_created : Tcp → Bool
  pub set_connected : SocketAddr → Tcp → Tcp
  pub is_connected : Tcp → Bool
  -- Into a buffer of some length: what was read, and the socket without it.
  pub recv_slice : ℕ → Tcp → SocketError ⊎ (Bytes × Tcp)

-- The set as a store of UDP sockets `Udp`.
pub record UdpSetOps (S Udp : Type 0) : Type 0 where
  pub len : S → ℕ
  pub capacity : S → ℕ
  pub recycle : Log → S → Bool × S
  pub add : ℕ → S → SocketError ⊎ (ℕ × S)
  pub get : ℕ → S → SocketError ⊎ Udp
  pub put : ℕ → Udp → S → S
  pub remove : ℕ → S → SocketError ⊎ S
  pub bind : SocketAddr → Udp → SocketError ⊎ Udp
  pub is_open : Udp → Bool
  pub endpoint : Udp → Option SocketAddr
  pub recv_slice : ℕ → Udp → SocketError ⊎ (Bytes × Udp)

-- `sockets.iter_mut().find(|(handle, _)| *handle == socket)`
unfoldable pub find_socket : {Sock : Type 0} → ℕ → List (ℕ × Sock) → Option Sock
find_socket socket [] = none
find_socket socket ((handle, sock) ∷ rest) =
    if handle == socket then some sock else find_socket socket rest
