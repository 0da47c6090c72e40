-- ===== src/Data/Lengths.antt =====
-- services/data: what is sent for a buffer, against the lengths that the command structs declare.
use fibocom_cellular_rs.Prelude.{
  ℕ, ◌≤◌, ◌<◌, ◌≡◌, arith, Bool, true, false, ◌&&◌, some, inr, List, [], ◌∷◌, length, length-append,
  length-take, sym, ap, ◌∙◌, subst,
}
use fibocom_cellular_rs.Command.{Bytes, Command, SocketAddr}
use fibocom_cellular_rs.Command.Lengths.{within_len}
use fibocom_cellular_rs.Env.{Env, Log, commands}
use fibocom_cellular_rs.Effect.{ok}
use fibocom_cellular_rs.Sockets.{TcpSetOps, UdpSetOps}
use fibocom_cellular_rs.Data.Ingress.{DataService}
use fibocom_cellular_rs.Data.Stack.{egress_chunk_size, chunks_within, chunks}
use fibocom_cellular_rs.Data.Egress.{
  joined, IsSized, transcript, tcp_transcript, chunks-joined, send-commands,
}
use fibocom_cellular_rs.Data.Datagrams.{udp_transcript, send-datagrams}
use fibocom_cellular_rs.Data.Tcp
use fibocom_cellular_rs.Data.Udp

-- All commands keep to what their structs declare.
unfoldable pub all_within_len : List Command → Bool
all_within_len [] = true
all_within_len (c ∷ rest) = within_len c && all_within_len rest

tcp-within_len :
    (handle : ℕ) (list : List Bytes) (before : List Command)
    → IsSized 1024 list
    → all_within_len before ≡ true
    → all_within_len (tcp_transcript handle list before) ≡ true
unfolding transcript all_within_len IsSized within_len
tcp-within_len handle [] before h k = k
tcp-within_len handle (chunk ∷ rest) before h k =
    let short = h.1 in tcp-within_len handle rest _ h.2 (ground arith)

udp-within_len :
    (handle : ℕ) (endpoint : SocketAddr) (list : List Bytes) (before : List Command)
    → IsSized 512 list
    → all_within_len before ≡ true
    → all_within_len (udp_transcript handle endpoint list before) ≡ true
unfolding transcript all_within_len IsSized within_len
udp-within_len handle endpoint [] before h k = k
udp-within_len handle endpoint (chunk ∷ rest) before h k =
    let short = h.1 in udp-within_len handle endpoint rest _ h.2 (ground arith)

-- What has been sent beyond a declared length stays sent.
udp-exceeds :
    (handle : ℕ) (endpoint : SocketAddr) (list : List Bytes) (before : List Command)
    → all_within_len before ≡ false
    → all_within_len (udp_transcript handle endpoint list before) ≡ false
unfolding transcript all_within_len within_len
udp-exceeds handle endpoint [] before k = k
udp-exceeds handle endpoint (chunk ∷ rest) before k =
    udp-exceeds handle endpoint rest _ (ground arith)

first-exceeds :
    (handle : ℕ) (endpoint : SocketAddr) (chunk : Bytes) (rest : List Bytes) (before : List Command)
    → 512 < length chunk
    → all_within_len (udp_transcript handle endpoint (chunk ∷ rest) before) ≡ false
unfolding transcript all_within_len within_len
first-exceeds handle endpoint chunk rest before h =
    udp-exceeds handle endpoint rest _ (ground arith)

joined-IsSized :
    (n m : ℕ) (list : List Bytes) → IsSized n list → length (joined list) ≤ m → IsSized m list
unfolding IsSized joined
joined-IsSized n m [] h k = tt
joined-IsSized n m (chunk ∷ rest) h k =
    let both = length-append chunk (joined rest) in
    (h.0, omega arith, joined-IsSized n m rest h.2 (omega arith))

short-IsSized :
    (m : ℕ) (buffer : Bytes) → length buffer ≤ m → IsSized m (chunks egress_chunk_size buffer)
short-IsSized m buffer h =
    let cut = chunks-joined egress_chunk_size buffer (omega arith) in
    joined-IsSized egress_chunk_size m _ cut.1 (subst (λ x. length x ≤ m) (sym cut.0) h)

long-exceeds :
    (handle : ℕ) (endpoint : SocketAddr) (buffer : Bytes) (before : List Command)
    → 512 < length buffer
    → all_within_len (udp_transcript handle endpoint (chunks egress_chunk_size buffer) before)
      ≡ false
unfolding chunks chunks_within
long-exceeds handle endpoint [] before h = ground arith
long-exceeds handle endpoint (x ∷ xs) before h =
    first-exceeds handle endpoint _ _ before (omega (arith, length-take egress_chunk_size (x ∷ xs)))

-- A `send` of a TCP socket that succeeds has kept to the lengths that the command structs declare,
-- if what was sent before has: no chunk is longer than the 1024 bytes of `WriteSocketDataBinary`.
pub send-within_len :
    (env : Env) {S T : Type 0} (ops : TcpSetOps S T) (handle : ℕ) (buffer : Bytes)
    (d : DataService S) (l : Log) (written : ℕ)
    → (Tcp.send env ops handle buffer d l).0 ≡ ok written
    → all_within_len (commands l) ≡ true
    → all_within_len (commands (Tcp.send env ops handle buffer d l).2) ≡ true
send-within_len env ops handle buffer d l written h k =
    let sent = (send-commands env ops handle buffer d l written h).1 in
    ap all_within_len sent
    ∙ tcp-within_len handle _ _ (chunks-joined egress_chunk_size buffer (omega arith)).1 k

-- On an open UDP socket of the set that is bound to an endpoint, a `send` that succeeds has kept to
-- the lengths that the command structs declare, if what was sent before has, for a buffer of 512
-- bytes at most; for a longer one it never has: its first chunk is longer than the 512 bytes of
-- `UDPSendToDataBinary`.
pub send_datagrams-within_len :
    (env : Env) {S Sock : Type 0} (ops : UdpSetOps S Sock) (handle : ℕ) (buffer : Bytes)
    (d : DataService S) (l : Log) (s : S) (udp : Sock) (endpoint : SocketAddr)
    → d.sockets ≡ some s
    → ops.get handle s ≡ inr udp
    → ops.endpoint udp ≡ some endpoint
    → ops.is_open udp ≡ true
    → (Udp.send env ops handle buffer d l).0 ≡ ok tt
    → (length buffer ≤ 512
        → all_within_len (commands l) ≡ true
        → all_within_len (commands (Udp.send env ops handle buffer d l).2) ≡ true)
      × (512 < length buffer
          → all_within_len (commands (Udp.send env ops handle buffer d l).2) ≡ false)
send_datagrams-within_len env ops handle buffer d l s udp endpoint hs hg he is_open h =
    let sent = (send-datagrams env ops handle buffer d l s udp endpoint hs hg he).0 is_open h in
    (
      λ short k.
          ap all_within_len sent
          ∙ udp-within_len handle endpoint _ _ (short-IsSized 512 buffer short) k,
      λ long. ap all_within_len sent ∙ long-exceeds handle endpoint buffer _ long,
    )
