-- ===== src/Data/Egress.antt =====
-- services/data/tcp_stack.rs: how `send` divides a buffer into chunks, and what it sends for them.
use fibocom_cellular_rs.Data.Ingress.{on_service_network}
use fibocom_cellular_rs.Prelude.{
  ℕ, zero, suc, ◌≤◌, ◌<◌, ◌≡◌, refl, ap, ◌∙◌, arith, List, [], ◌∷◌, ◌++◌, length, take, drop,
  take-append-drop, length-take, length-drop,
}
use fibocom_cellular_rs.Command.{Bytes, Command, IpTransportLayer}
use fibocom_cellular_rs.Env.{Env, Log, commands}
use fibocom_cellular_rs.Effect.{ok, combinators}
use fibocom_cellular_rs.Network.{send_internal}
use fibocom_cellular_rs.Network
use fibocom_cellular_rs.Sockets.{TcpSetOps}
use fibocom_cellular_rs.Data.Ingress.{DataService}
use fibocom_cellular_rs.Data.Tcp.{send_chunk, send_chunks, send, is_connected}
use fibocom_cellular_rs.Data.Stack.{
  egress_chunk_size, chunks_within, chunks, send_or_unaddressable, with_sockets,
}

-- The chunks in a row.
unfoldable pub joined : List Bytes → Bytes
joined [] = []
joined (chunk ∷ rest) = chunk ++ joined rest

-- All chunks have between 1 and `n` bytes.
unfoldable pub IsSized : ℕ → List Bytes → Type 0
IsSized n [] = Unit {0}
IsSized n (chunk ∷ rest) = (0 < length chunk) × (length chunk ≤ n) × IsSized n rest

chunks_within-joined :
    (rounds n : ℕ) (buffer : Bytes)
    → 0 < n
    → length buffer ≤ rounds
    → (joined (chunks_within rounds n buffer) ≡ buffer) × IsSized n (chunks_within rounds n buffer)
unfolding chunks_within joined IsSized
chunks_within-joined zero n [] hn h = (refl, tt)
chunks_within-joined zero n (x ∷ xs) hn h = ground arith
chunks_within-joined (suc rounds) n [] hn h = (refl, tt)
chunks_within-joined (suc rounds) n (x ∷ xs) hn h =
    let ih =
      chunks_within-joined rounds n (drop n (x ∷ xs)) hn (omega (arith, length-drop n (x ∷ xs))) in
    (
      ap (λ ys. take n (x ∷ xs) ++ ys) ih.0 ∙ take-append-drop n (x ∷ xs),
      (omega (arith, length-take n (x ∷ xs)), omega (arith, length-take n (x ∷ xs)), ih.1),
    )

-- Into chunks of at most `n` bytes a buffer is divided without loss: they make up the buffer in
-- order, and none of them is empty or longer than `n`.
pub chunks-joined :
    (n : ℕ) (buffer : Bytes)
    → 0 < n
    → (joined (chunks n buffer) ≡ buffer) × IsSized n (chunks n buffer)
unfolding chunks
chunks-joined n buffer hn = chunks_within-joined (length buffer) n buffer hn (omega arith)

-- The commands that chunks are sent by, newest first, behind those of before: for each the
-- announcement of its length, and the chunk.
unfoldable pub transcript :
    (ℕ → IpTransportLayer) → (Bytes → IpTransportLayer) → List Bytes → List Command → List Command
transcript announce write [] before = before
transcript announce write (chunk ∷ rest) before = transcript announce write rest (
    Command.ip_transport_layer (write chunk)
    ∷ Command.ip_transport_layer (announce (length chunk))
    ∷ before)

-- The transcript of a TCP socket.
abbrev pub tcp_transcript : ℕ → List Bytes → List Command → List Command
tcp_transcript handle =
    transcript (IpTransportLayer.prepare_write_socket_data_binary handle)
      IpTransportLayer.write_socket_data_binary

module _ (env : Env) {S Tcp : Type 0} (ops : TcpSetOps S Tcp) where
  send_chunk-commands :
      (handle : ℕ) (chunk : Bytes) (d : DataService S) (l : Log)
      → (send_chunk env ops handle chunk d l).0 ≡ ok tt
      → commands (send_chunk env ops handle chunk d l).2
        ≡ Command.ip_transport_layer (IpTransportLayer.write_socket_data_binary chunk)
          ∷ Command.ip_transport_layer
              (IpTransportLayer.prepare_write_socket_data_binary handle (length chunk))
          ∷ commands l
  unfolding send_chunk send_or_unaddressable send_internal Network.send combinators
      on_service_network
  send_chunk-commands handle chunk d l h = ground arith

  send_chunks-commands :
      (handle : ℕ) (list : List Bytes) (d : DataService S) (l : Log)
      → (send_chunks env ops handle list d l).0 ≡ ok tt
      → commands (send_chunks env ops handle list d l).2 ≡ tcp_transcript handle list (commands l)
  unfolding send_chunks transcript combinators
  send_chunks-commands handle [] d l h = refl
  send_chunks-commands handle (chunk ∷ rest) d l h =
      let one = send_chunk-commands handle chunk d l in
      let ih = send_chunks-commands handle rest in grind arith

-- A `send` that succeeds reports the whole buffer as written, and the commands it has sent are for
-- each chunk of 1024 bytes at most, in order, the announcement of its length and the chunk.
pub send-commands :
    (env : Env) {S Tcp : Type 0} (ops : TcpSetOps S Tcp) (handle : ℕ) (buffer : Bytes)
    (d : DataService S) (l : Log) (written : ℕ)
    → (send env ops handle buffer d l).0 ≡ ok written
    → (written ≡ length buffer)
      × (commands (send env ops handle buffer d l).2
          ≡ tcp_transcript handle (chunks egress_chunk_size buffer) (commands l))
unfolding send is_connected with_sockets combinators
send-commands env ops handle buffer d l written h =
    let sc = send_chunks-commands env ops handle (chunks egress_chunk_size buffer) in
    (grind arith, grind arith)
