-- ===== src/Command/Types/Text.antt =====
-- Texts, and the socket address of `embedded_nal`.
use fibocom_cellular_rs.Prelude.{ℕ, List}

-- A text or a byte string: its bytes.
abbrev pub Bytes : Type 0
Bytes = List ℕ

-- The bytes of the IP address, and the port.
pub record SocketAddr : Type 0 where
  pub ip : Bytes
  pub port : ℕ
