-- ===== src/Examples/Reading/Tests.antt =====
-- The theorem on the threads that read the port, with an ingress that keeps what it is given.
use fibocom_cellular_rs.Prelude.{◌≡◌, ◌++◌, refl, sym, append-nil, inl, inr, [], ◌∷◌, length, arith}
use fibocom_cellular_rs.Command.{Bytes}
use fibocom_cellular_rs.Effect.{ok}
use fibocom_cellular_rs.Examples.Serial.{IoErrorKind}
use fibocom_cellular_rs.Examples.Reading.{
  ReadPort, Ingress, Reader, digest_and_read, read_and_digest, rounds,
}
use fibocom_cellular_rs.Examples.Reading.InOrder.{IsTaken, IsFed, IsWithin, got, rounds-taken}

abbrev keeping_ops : Ingress Bytes
keeping_ops = record { write = λ bytes fed. fed ++ bytes; digest = λ fed. fed }

keeping_ops-IsFed : IsFed keeping_ops (λ fed. fed)
keeping_ops-IsFed = record { write-fed = λ bytes i. refl; digest-fed = λ i. refl }

-- A port at which a letter comes in at each read, as long as there is room for it.
abbrev letter_port : ReadPort Bytes
letter_port = record {
  read = λ buffer taken. elim buffer [
    | [] ↦ (inl IoErrorKind.would_block, [], taken)
    | x ∷ rest ↦ (inr 1, b'a' ∷ rest, taken ++ (b'a' ∷ []))
  ];
}

letter_port-IsWithin :
    (buffer p : Bytes)
    → IsWithin (length (letter_port.read buffer p).1) (letter_port.read buffer p).0
unfolding IsWithin
letter_port-IsWithin [] p = tt
letter_port-IsWithin (x ∷ rest) p = omega arith

letter_port-taken :
    (buffer p : Bytes)
    → (letter_port.read buffer p).2
      ≡ p ++ got (letter_port.read buffer p).0 (letter_port.read buffer p).1
unfolding got
letter_port-taken [] p = sym (append-nil p)
letter_port-taken (x ∷ rest) p = refl

letter_port-IsTaken : IsTaken letter_port (λ taken. taken)
letter_port-IsTaken = record { within = letter_port-IsWithin; read-taken = letter_port-taken }

abbrev start : Reader Bytes Bytes
start = record { serial_rx = []; ingress = [] }

rounds-taken_example :
    let sockets = rounds (digest_and_read letter_port keeping_ops {E = ⊥}) 3 start [] in
    let mqtt = rounds (read_and_digest letter_port keeping_ops {E = ⊥}) 3 start [] in
    (sockets.0 ≡ ok tt)
    × (sockets.1.ingress ≡ sockets.1.serial_rx)
    × (mqtt.0 ≡ ok tt)
    × (mqtt.1.ingress ≡ mqtt.1.serial_rx)
rounds-taken_example =
    rounds-taken letter_port keeping_ops (λ taken. taken) (λ fed. fed) letter_port-IsTaken
      keeping_ops-IsFed ⊥ 3 start [] refl
