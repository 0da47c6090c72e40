-- ===== src/Examples/Reading/InOrder.antt =====
-- examples: the threads that read the port hand on what they read.
use fibocom_cellular_rs.Prelude.{
  ℕ, zero, suc, ◌≤◌, ◌≡◌, refl, sym, ap, ◌∙◌, ◌⊎◌, inl, inr, [], ◌++◌, append-nil, length, take,
  arith,
}
use fibocom_cellular_rs.Command.{Bytes}
use fibocom_cellular_rs.Env.{Log}
use fibocom_cellular_rs.Effect.{M, ok, ◌>>=◌, combinators}
use fibocom_cellular_rs.Examples.Serial.{IoErrorKind}
use fibocom_cellular_rs.Examples.Reading.{
  ReadPort, Ingress, Reader, zeros, slice, read, write, digest, take_in, take_in_twice,
  digest_and_read, read_and_digest, rounds,
}

-- What an ingress has been given: `write` adds its bytes, and to digest them gives it none.
pub record IsFed {I : Type 0} (ops : Ingress I) (fed : I → Bytes) : Type 0 where
  pub write-fed : (bytes : Bytes) (i : I) → fed (ops.write bytes i) ≡ fed i ++ bytes
  pub digest-fed : (i : I) → fed (ops.digest i) ≡ fed i

-- A read returns no more than the buffer holds.
unfoldable pub IsWithin : ℕ → IoErrorKind ⊎ ℕ → Type 0
IsWithin room (inl e) = Unit {0}
IsWithin room (inr n) = n ≤ room

-- The bytes that a read has put to the front of the buffer; none, if it failed.
unfoldable pub got : IoErrorKind ⊎ ℕ → Bytes → Bytes
got (inl e) buffer = []
got (inr n) buffer = take n buffer

-- std::io::Read: what is taken from a port is what its reads have put into the buffer.
pub record IsTaken {P : Type 0} (port : ReadPort P) (taken : P → Bytes) : Type 0 where
  pub within :
      (buffer : Bytes) (p : P) → IsWithin (length (port.read buffer p).1) (port.read buffer p).0
  pub read-taken :
      (buffer : Bytes) (p : P)
      → taken (port.read buffer p).2 ≡ taken p ++ got (port.read buffer p).0 (port.read buffer p).1

slice-take :
    {S E : Type 0} (n : ℕ) (buffer : Bytes) (s : S) (l : Log)
    → n ≤ length buffer
    → slice {E = E} 0 n buffer s l ≡ (ok (take n buffer), s, l)
unfolding slice
slice-take n buffer s l h = ground arith

module _ {P I : Type 0} (taken : P → Bytes) (fed : I → Bytes) where
  -- A round ends well, and what it has taken it has handed on.
  pub record HandsOn {E : Type 0} (round : M (Reader P I) E (Unit {0})) : Type 0 where
    pub hands_on :
        (s : Reader P I) (l : Log)
        → fed s.ingress ≡ taken s.serial_rx
        → ((round s l).0 ≡ ok tt) × (fed (round s l).1.ingress ≡ taken (round s l).1.serial_rx)

  rounds-HandsOn :
      {E : Type 0} {round : M (Reader P I) E (Unit {0})}
      → HandsOn round
      → (n : ℕ) → HandsOn (rounds round n)
  unfolding rounds combinators
  rounds-HandsOn h zero = record { hands_on = λ s l e. (refl, e) }
  rounds-HandsOn {round = round} h (suc n) = record {
    hands_on = λ s l e.
        let ho = h.hands_on s l e in
        let ih = (rounds-HandsOn h n).hands_on (round s l).1 (round s l).2 ho.1 in
        (grind arith, grind arith);
  }

  module _ (port : ReadPort P) (ops : Ingress I) (is_fed : IsFed ops fed) {E : Type 0} where
    -- The result of a read is handed on.
    record Delivers (m : IoErrorKind ⊎ ℕ → Bytes → M (Reader P I) E (Unit {0})) : Type 0 where
      delivers :
          (result : IoErrorKind ⊎ ℕ) (buffer : Bytes) (s : Reader P I) (l : Log)
          → IsWithin (length buffer) result
          → ((m result buffer s l).0 ≡ ok tt)
            × (fed (m result buffer s l).1.ingress ≡ fed s.ingress ++ got result buffer)
            × ((m result buffer s l).1.serial_rx ≡ s.serial_rx)

    take_in_lem :
        (result : IoErrorKind ⊎ ℕ) (buffer : Bytes) (s : Reader P I) (l : Log)
        → IsWithin (length buffer) result
        → let r = take_in port ops {E = E} result buffer s l in
          (r.0 ≡ ok tt)
          × (fed r.1.ingress ≡ fed s.ingress ++ got result buffer)
          × (r.1.serial_rx ≡ s.serial_rx)
    unfolding take_in write digest IsWithin got combinators
    take_in_lem (inl e) buffer s l h = (refl, sym (append-nil _), refl)
    take_in_lem (inr zero) buffer s l h = (refl, sym (append-nil _), refl)
    take_in_lem (inr (suc n)) buffer s l h =
        let st = slice-take {S = Reader P I} {E = E} (suc n) buffer s l h in
        let wf = is_fed.write-fed (take (suc n) buffer) s.ingress in
        let df = is_fed.digest-fed in (grind arith, grind arith, grind arith)

    take_in_twice_lem :
        (result : IoErrorKind ⊎ ℕ) (buffer : Bytes) (s : Reader P I) (l : Log)
        → IsWithin (length buffer) result
        → let r = take_in_twice port ops {E = E} result buffer s l in
          (r.0 ≡ ok tt)
          × (fed r.1.ingress ≡ fed s.ingress ++ got result buffer)
          × (r.1.serial_rx ≡ s.serial_rx)
    unfolding take_in_twice write digest IsWithin got combinators
    take_in_twice_lem (inl e) buffer s l h = (refl, sym (append-nil _), refl)
    take_in_twice_lem (inr zero) buffer s l h = (refl, sym (append-nil _), refl)
    take_in_twice_lem (inr (suc n)) buffer s l h =
        let st = slice-take {S = Reader P I} {E = E} (suc n) buffer s l h in
        let wf = is_fed.write-fed (take (suc n) buffer) s.ingress in
        let df = is_fed.digest-fed in (grind arith, grind arith, grind arith)

    module _ (is_taken : IsTaken port taken) where
      reading :
          (m : IoErrorKind ⊎ ℕ → Bytes → M (Reader P I) E (Unit {0}))
          → Delivers m
          → HandsOn (read port ops (zeros 32) >>= λ result. m result.0 result.1)
      unfolding read combinators
      reading m d = record {
        hands_on = λ s l e.
            let r = port.read (zeros 32) s.serial_rx in
            let in_order =
              d.delivers r.0 r.1 (record s { serial_rx = r.2 }) l
                (is_taken.within (zeros 32) s.serial_rx) in
            (
              in_order.0,
              in_order.1
                  ∙ ap (λ x. x ++ got r.0 r.1) e
                  ∙ sym (is_taken.read-taken (zeros 32) s.serial_rx)
                  ∙ ap taken (sym in_order.2),
            );
      }

      digest_and_read-HandsOn : HandsOn (digest_and_read port ops {E = E})
      unfolding digest_and_read digest combinators
      digest_and_read-HandsOn = record {
        hands_on = λ s l e.
            (reading (take_in port ops) (record { delivers = take_in_lem })).hands_on
              (record s { ingress = ops.digest s.ingress }) l (is_fed.digest-fed s.ingress ∙ e);
      }

      read_and_digest-HandsOn : HandsOn (read_and_digest port ops {E = E})
      unfolding read_and_digest
      read_and_digest-HandsOn =
          reading (take_in_twice port ops) (record { delivers = take_in_twice_lem })

-- With a port whose reads put no more into the buffer than they say and it holds, and an ingress
-- that is given bytes by `write` and by nothing else: if everything taken from the port has been
-- handed on, so it is after any number of rounds, of the loop of sockets as of that of linux_mqtt
-- and linux_jobs: each byte once, in order, whatever errors and empty reads come in between. No
-- round panics by a slice out of range.
pub rounds-taken :
    {P I : Type 0} (port : ReadPort P) (ops : Ingress I) (taken : P → Bytes) (fed : I → Bytes)
    → IsTaken port taken
    → IsFed ops fed
    → (E : Type 0) (n : ℕ) (s : Reader P I) (l : Log) → fed s.ingress ≡ taken s.serial_rx
    → let sockets = rounds (digest_and_read port ops {E = E}) n s l in
      let mqtt = rounds (read_and_digest port ops {E = E}) n s l in
      (sockets.0 ≡ ok tt)
      × (fed sockets.1.ingress ≡ taken sockets.1.serial_rx)
      × (mqtt.0 ≡ ok tt)
      × (fed mqtt.1.ingress ≡ taken mqtt.1.serial_rx)
rounds-taken port ops taken fed is_taken is_fed E n s l e =
    let sockets = digest_and_read-HandsOn taken fed port ops is_fed {E = E} is_taken in
    let mqtt = read_and_digest-HandsOn taken fed port ops is_fed {E = E} is_taken in
    let a = (rounds-HandsOn taken fed sockets n).hands_on s l e in
    let b = (rounds-HandsOn taken fed mqtt n).hands_on s l e in (a.0, a.1, b.0, b.1)
