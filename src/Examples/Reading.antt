-- ===== src/Examples/Reading.antt =====
-- examples/sockets/src/main.rs, examples/linux_mqtt/src/main.rs and
-- examples/linux_jobs/src/main.rs: the loop of the thread that reads the port, with its buffer.
pub mod InOrder
mod Tests
use fibocom_cellular_rs.Prelude.{
  ℕ, zero, suc, ◌-◌, ◌⊎◌, inl, inr, [], ◌∷◌, Option, none, some, length, take, drop, leb, ◌&&◌,
  if◌then◌else◌,
}
use fibocom_cellular_rs.Command.{Bytes}
use fibocom_cellular_rs.Effect.{M, ◌>>=◌, ◌>>◌, pure, panic, modify}
use fibocom_cellular_rs.Examples.Serial.{IoErrorKind}

-- `std::io::Read` of the port, on a state `P`: how many bytes were read, or an error, and the
-- buffer behind it.
pub record ReadPort (P : Type 0) : Type 0 where
  pub read : Bytes → P → (IoErrorKind ⊎ ℕ) × Bytes × P

-- What `atat::IngressManager` offers, on a state `I`.
pub record Ingress (I : Type 0) : Type 0 where
  pub write : Bytes → I → I
  pub digest : I → I

pub record Reader (P I : Type 0) : Type 0 where
  pub serial_rx : P
  pub ingress : I

-- `[0; n]`
abbrev pub zeros : ℕ → Bytes
zeros zero = []
zeros (suc n) = 0 ∷ zeros n

-- `&buffer[from..to]`, which panics out of range.
unfoldable pub slice : {S E : Type 0} → (from to : ℕ) → Bytes → M S E Bytes
slice from to buffer =
    if leb from to && leb to (length buffer)
    then pure (take (to - from) (drop from buffer))
    else panic

module _ {P I : Type 0} (port : ReadPort P) (ops : Ingress I) where
  -- `serial_rx.read(&mut buffer[..])`
  unfoldable pub read : {E : Type 0} → Bytes → M (Reader P I) E ((IoErrorKind ⊎ ℕ) × Bytes)
  read buffer = λ s l.
      let r = port.read buffer s.serial_rx in pure (r.0, r.1) (record s { serial_rx = r.2 }) l

  unfoldable pub write : {E : Type 0} → Bytes → M (Reader P I) E (Unit {0})
  write bytes = modify λ s. record s { ingress = ops.write bytes s.ingress }

  unfoldable pub digest : {E : Type 0} → M (Reader P I) E (Unit {0})
  digest = modify λ s. record s { ingress = ops.digest s.ingress }

  unfoldable pub take_in : {E : Type 0} → IoErrorKind ⊎ ℕ → Bytes → M (Reader P I) E (Unit {0})
  take_in (inr zero) buffer = pure tt
  take_in (inr (suc n)) buffer = do bytes ← slice 0 (suc n) buffer; write bytes; digest
  take_in (inl e) buffer = pure tt

  -- One round of sockets.
  unfoldable pub digest_and_read : {E : Type 0} → M (Reader P I) E (Unit {0})
  digest_and_read = do digest; result ← read (zeros 32); take_in result.0 result.1

  -- What a round of linux_mqtt and of linux_jobs does with the result.
  unfoldable pub take_in_twice :
      {E : Type 0} → IoErrorKind ⊎ ℕ → Bytes → M (Reader P I) E (Unit {0})
  take_in_twice (inr zero) buffer = pure tt
  take_in_twice (inr (suc n)) buffer = do
    bytes ← slice 0 (suc n) buffer
    write bytes
    digest
    digest
  take_in_twice (inl e) buffer = pure tt

  -- One round of linux_mqtt and of linux_jobs.
  unfoldable pub read_and_digest : {E : Type 0} → M (Reader P I) E (Unit {0})
  read_and_digest = do result ← read (zeros 32); take_in_twice result.0 result.1

-- So many rounds of a loop.
unfoldable pub rounds :
    {P I E : Type 0} → M (Reader P I) E (Unit {0}) → ℕ → M (Reader P I) E (Unit {0})
rounds round zero = pure tt
rounds round (suc n) = do round; rounds round n
