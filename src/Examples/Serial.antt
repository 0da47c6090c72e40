-- ===== src/Examples/Serial.antt =====
-- examples/common_lib/src/serial.rs: a serial port of the system under the names of embedded-hal.
use fibocom_cellular_rs.Prelude.{ℕ, ◌⊎◌, inl, inr, [], ◌∷◌, ◌==◌, if◌then◌else◌}
use fibocom_cellular_rs.Command.{Bytes}
use fibocom_cellular_rs.Error.{NbError}

-- std::io::ErrorKind, as far as the port tells its kinds apart.
pub data IoErrorKind : Type 0 where
  would_block timed_out interrupted other : IoErrorKind

-- embedded_hal::serial::ErrorKind
pub data ErrorKind : Type 0 where
  other : ErrorKind

unfoldable pub translate_io_errors : IoErrorKind → NbError ErrorKind
translate_io_errors IoErrorKind.other = NbError.other ErrorKind.other
translate_io_errors _ = NbError.would_block

-- What `std::io::Read` and `Write` offer on a port of state `P`: `read` into a buffer of one byte
-- returns the number of bytes that were read, and the buffer's byte.
pub record SerialPort (P : Type 0) : Type 0 where
  pub read : P → (IoErrorKind ⊎ (ℕ × ℕ)) × P
  pub write : Bytes → P → (IoErrorKind ⊎ ℕ) × P
  pub flush : P → (IoErrorKind ⊎ Unit {0}) × P

module _ {P : Type 0} (ops : SerialPort P) where
  unfoldable pub read : P → (NbError ErrorKind ⊎ ℕ) × P
  unfolding translate_io_errors
  read port =
      let r = ops.read port in
      elim r.0 [
        | inl e ↦ (inl (translate_io_errors e), r.1)
        | inr got ↦ (if got.0 == 1 then inr got.1 else inl NbError.would_block, r.1)
      ]

  -- How many bytes were written is not looked at.
  unfoldable pub write : (word : ℕ) → P → (NbError ErrorKind ⊎ Unit {0}) × P
  unfolding translate_io_errors
  write word port =
      let r = ops.write (word ∷ []) port in
      elim r.0 [ inl e ↦ (inl (translate_io_errors e), r.1) | inr n ↦ (inr tt, r.1) ]

  unfoldable pub flush : P → (NbError ErrorKind ⊎ Unit {0}) × P
  unfolding translate_io_errors
  flush port =
      let r = ops.flush port in
      elim r.0 [ inl e ↦ (inl (translate_io_errors e), r.1) | inr x ↦ (inr tt, r.1) ]
