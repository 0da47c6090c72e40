-- ===== src/Data/Datagrams.antt =====
-- services/data/udp_stack.rs: what `send` sends for a buffer, and where it fails with nothing sent.
use fibocom_cellular_rs.Data.Ingress.{on_service_network}
use fibocom_cellular_rs.Prelude.{ℕ, ◌≡◌, refl, arith, true, false, some, List, [], ◌∷◌, length, inr}
use fibocom_cellular_rs.Command.{Bytes, Command, IpTransportLayer, SocketAddr}
use fibocom_cellular_rs.Env.{Env, Log, commands}
use fibocom_cellular_rs.Error.{SocketError, NbError}
use fibocom_cellular_rs.Effect.{ok, err, combinators}
use fibocom_cellular_rs.Network.{send_internal}
use fibocom_cellular_rs.Network
use fibocom_cellular_rs.Sockets.{UdpSetOps}
use fibocom_cellular_rs.Data.Ingress.{DataService}
use fibocom_cellular_rs.Data.Stack.{egress_chunk_size, chunks, with_sockets, send_or_unaddressable}
use fibocom_cellular_rs.Data.Egress.{transcript}
use fibocom_cellular_rs.Data.Udp.{send_chunk, send_chunks, send}

-- The transcript of a UDP socket, which names the receiver in each announcement.
abbrev pub udp_transcript : ℕ → SocketAddr → List Bytes → List Command → List Command
udp_transcript handle endpoint =
    transcript (IpTransportLayer.prepare_udp_send_to_data_binary handle endpoint)
      IpTransportLayer.udp_send_to_data_binary

module _ (env : Env) {S Sock : Type 0} (ops : UdpSetOps S Sock) (handle : ℕ) (udp : Sock)
    (endpoint : SocketAddr) (bound : ops.endpoint udp ≡ some endpoint) where
  send_chunk-datagram :
      (chunk : Bytes) (d : DataService S) (l : Log)
      → (send_chunk env ops handle udp chunk d l).0 ≡ ok tt
      → commands (send_chunk env ops handle udp chunk d l).2
        ≡ Command.ip_transport_layer (IpTransportLayer.udp_send_to_data_binary chunk)
          ∷ Command.ip_transport_layer
              (IpTransportLayer.prepare_udp_send_to_data_binary handle endpoint (length chunk))
          ∷ commands l
  unfolding send_chunk send_or_unaddressable send_internal Network.send combinators
      on_service_network
  send_chunk-datagram chunk d l h = ground arith

  send_chunks-datagrams :
      (list : List Bytes) (d : DataService S) (l : Log)
      → (send_chunks env ops handle udp list d l).0 ≡ ok tt
      → commands (send_chunks env ops handle udp list d l).2
        ≡ udp_transcript handle endpoint list (commands l)
  unfolding send_chunks transcript combinators
  send_chunks-datagrams [] d l h = refl
  send_chunks-datagrams (chunk ∷ rest) d l h =
      let one = send_chunk-datagram chunk d l in let ih = send_chunks-datagrams rest in grind arith

-- On an open socket of the set that is bound to an endpoint, a `send` that succeeds has sent for
-- each chunk of 1024 bytes at most, in order, the announcement of its length for that endpoint and
-- the chunk; on a socket that is not open it fails as closed, with nothing sent.
pub send-datagrams :
    (env : Env) {S Sock : Type 0} (ops : UdpSetOps S Sock) (handle : ℕ) (buffer : Bytes)
    (d : DataService S) (l : Log) (s : S) (udp : Sock) (endpoint : SocketAddr)
    → d.sockets ≡ some s
    → ops.get handle s ≡ inr udp
    → ops.endpoint udp ≡ some endpoint
    → (ops.is_open udp ≡ true
        → (send env ops handle buffer d l).0 ≡ ok tt
        → commands (send env ops handle buffer d l).2
          ≡ udp_transcript handle endpoint (chunks egress_chunk_size buffer) (commands l))
      × (ops.is_open udp ≡ false
          → send env ops handle buffer d l ≡ (err (NbError.other SocketError.socket_closed), d, l))
unfolding send with_sockets combinators
send-datagrams env ops handle buffer d l s udp endpoint hs hg he =
    let sc =
      send_chunks-datagrams env ops handle udp endpoint he (chunks egress_chunk_size buffer) d l in
    (λ o h. ground arith, λ o. ground arith)
