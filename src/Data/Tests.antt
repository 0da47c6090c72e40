-- ===== src/Data/Tests.antt =====
-- The theorems on the TCP stack at a set of one socket.
use fibocom_cellular_rs.Data.Ingress.{on_service_network}
use fibocom_cellular_rs.Prelude.{
  ℕ, zero, suc, ◌≤◌, ◌<◌, ◌≡◌, ◌≢◌, refl, [], ◌∷◌, none, inr, true, false, arith, length,
}
use fibocom_cellular_rs.Command.{
  Bytes, Command, SocketData, IpTransportLayer, SocketAddr, DeviceDataSecurity, SecurityDataType,
  SecurityProfileOperation, ResolutionType,
}
use fibocom_cellular_rs.Env.{commands}
use fibocom_cellular_rs.Error.{NbError, SocketError}
use fibocom_cellular_rs.Effect.{ok, err, halt, Fault, combinators}
use fibocom_cellular_rs.Network.{send_internal}
use fibocom_cellular_rs.Network
use fibocom_cellular_rs.Data.Tcp.{send_chunk, send_chunks, is_connected, send}
use fibocom_cellular_rs.Data.Stack.{egress_chunk_size, chunks, with_sockets, send_or_unaddressable}
use fibocom_cellular_rs.Data.Egress.{tcp_transcript, send-commands}
use fibocom_cellular_rs.Data.Udp
use fibocom_cellular_rs.Data.Lengths.{all_within_len, send-within_len, send_datagrams-within_len}
use fibocom_cellular_rs.Data.Ingress.{ingress, requested_len}
use fibocom_cellular_rs.Data.Reading.{Brings, ingress-Brings}
use fibocom_cellular_rs.Data.Datagrams.{udp_transcript, send-datagrams}
use fibocom_cellular_rs.Data.Ssl.{import_data, enable_ssl}
use fibocom_cellular_rs.Data.Securing.{
  profile, settings, settings_before, Accepts, import_data-commands, enable_ssl-commands,
  enable_ssl-panics,
}
use fibocom_cellular_rs.Data.Dns.{AddrType, get_host_by_name}
use fibocom_cellular_rs.Data.Resolving.{get_host_by_name_lem}
use fibocom_cellular_rs.Samples.{
  waiting_ops, taking_env, one_socket, one_datagram_socket, service, plain_text,
  taking_env-IsBounded,
}

abbrev hello : Bytes
hello = b'h' ∷ b'e' ∷ b'l' ∷ b'l' ∷ b'o' ∷ []

-- 10.0.0.1:80
abbrev remote : SocketAddr
remote = record { ip = 10 ∷ 0 ∷ 0 ∷ 1 ∷ []; port = 80 }

send-commands_example :
    (5 ≡ length hello)
    × (commands (send taking_env (one_socket false) 3 hello (service true) []).2
        ≡ tcp_transcript 3 (chunks egress_chunk_size hello) [])
unfolding send is_connected with_sockets send_chunks send_chunk send_or_unaddressable chunks
    on_service_network send_internal Network.send combinators
send-commands_example = send-commands taking_env (one_socket false) 3 hello (service true) [] 5 refl

send-datagrams_example :
    ((one_datagram_socket remote).is_open true ≡ true
      → (Udp.send taking_env (one_datagram_socket remote) 3 hello (service true) []).0 ≡ ok tt
      → commands (Udp.send taking_env (one_datagram_socket remote) 3 hello (service true) []).2
        ≡ udp_transcript 3 remote (chunks egress_chunk_size hello) [])
    × ((one_datagram_socket remote).is_open true ≡ false
        → Udp.send taking_env (one_datagram_socket remote) 3 hello (service true) []
          ≡ (err (NbError.other SocketError.socket_closed), service true, []))
send-datagrams_example =
    send-datagrams taking_env (one_datagram_socket remote) 3 hello (service true) []
      ((3, true) ∷ []) true remote refl refl refl

send-within_len_example :
    all_within_len (commands (send taking_env (one_socket false) 3 hello (service true) []).2)
    ≡ true
unfolding send is_connected with_sockets send_chunks send_chunk send_or_unaddressable chunks
    on_service_network send_internal Network.send combinators
send-within_len_example =
    send-within_len taking_env (one_socket false) 3 hello (service true) [] 5 refl
      (unfold all_within_len in refl)

-- A name of so many letters.
abbrev letters : ℕ → Bytes
letters zero = []
letters (suc n) = b'a' ∷ letters n

send_datagrams-within_len_example :
    let r = Udp.send taking_env (one_datagram_socket remote) 3 (letters 513) (service true) [] in
    (513 ≤ 512 → all_within_len [] ≡ true → all_within_len (commands r.2) ≡ true)
    × (512 < 513 → all_within_len (commands r.2) ≡ false)
unfolding Udp.send with_sockets Udp.send_chunks Udp.send_chunk send_or_unaddressable chunks
    on_service_network send_internal Network.send combinators
send_datagrams-within_len_example =
    send_datagrams-within_len taking_env (one_datagram_socket remote) 3 (letters 513) (service true)
      [] ((3, true) ∷ []) true remote refl refl refl refl refl

import_data-commands_example :
    (200 ≤ 5
      → import_data taking_env SecurityDataType.client_private_key
          SecurityProfileOperation.client_private_key_internal_name 1 hello hello none
          (service true)
          []
        ≡ (halt Fault.panicked, service true, []))
    × (5 < 200
        → (x : Fault)
        → (import_data taking_env SecurityDataType.client_private_key
            SecurityProfileOperation.client_private_key_internal_name 1 hello hello none
            (service true)
            []).0
          ≢ halt x)
    × ((import_data taking_env SecurityDataType.client_private_key
            SecurityProfileOperation.client_private_key_internal_name 1 hello hello none
            (service true)
            []).0
          ≡ ok tt
        → commands
            (import_data taking_env SecurityDataType.client_private_key
              SecurityProfileOperation.client_private_key_internal_name 1 hello hello none
              (service true)
              []).2
          ≡ profile 1 (SecurityProfileOperation.client_private_key_internal_name hello)
            ∷ Command.device_data_security (DeviceDataSecurity.send_security_data_import hello)
            ∷ Command.device_data_security (
                DeviceDataSecurity.prepare_security_data_import SecurityDataType.client_private_key
                  hello 5 none)
            ∷ [])
import_data-commands_example =
    import_data-commands taking_env SecurityDataType.client_private_key
      SecurityProfileOperation.client_private_key_internal_name 1 hello hello none (service true) []
      taking_env-IsBounded

enable_ssl-commands_example :
    ((x : Fault) → (enable_ssl taking_env 1 hello true (service true) []).0 ≢ halt x)
    × ((enable_ssl taking_env 1 hello true (service true) []).0 ≡ ok tt
        → commands (enable_ssl taking_env 1 hello true (service true) []).2
          ≡ settings 1 hello hello [])
enable_ssl-commands_example =
    enable_ssl-commands taking_env 1 hello true (service true) [] taking_env-IsBounded (omega arith)

enable_ssl-panics_example :
    ((enable_ssl taking_env 1 (letters 129) true (service true) []).0 ≢ ok tt)
    × (Accepts taking_env 1
        → ((enable_ssl taking_env 1 (letters 129) true (service true) []).0 ≡ halt Fault.panicked)
          × (commands (enable_ssl taking_env 1 (letters 129) true (service true) []).2
              ≡ settings_before 1 (letters 129) []))
enable_ssl-panics_example =
    enable_ssl-panics taking_env 1 (letters 129) true (service true) [] taking_env-IsBounded
      (omega arith)

get_host_by_name_lem_example :
    (AddrType.ipv4 ≡ AddrType.ipv6
      → get_host_by_name taking_env plain_text hello AddrType.ipv4 (service true) []
        ≡ (err (NbError.other SocketError.illegal), service true, []))
    × (AddrType.ipv4 ≢ AddrType.ipv6
        → (commands (get_host_by_name taking_env plain_text hello AddrType.ipv4 (service true) []).2
            ≡ Command.resolve_name_ip ResolutionType.domain_name_to_ip hello ∷ [])
          × ((get_host_by_name taking_env plain_text hello AddrType.ipv4 (service true) []).0
              ≡ err (NbError.other SocketError.unaddressable)))
get_host_by_name_lem_example =
    get_host_by_name_lem taking_env plain_text hello AddrType.ipv4 (service true) []

ingress-Brings_example :
    let query = Command.ip_transport_layer (IpTransportLayer.read_socket_data 3 5) in
    let r = ingress taking_env waiting_ops 3 true (service true) [] in
    (commands r.2 ≡ query ∷ [])
    × (5 ≤ 256)
    × (5 ≤ 5)
    × (5 ≤ 16)
    × (r.0 ≡ ok tt
        → (res : SocketData) × (taking_env.send_retry [] query ≡ inr res)
          × Brings 3 (record { socket = res.socket; payload = res.payload; length = res.length }))
unfolding requested_len
ingress-Brings_example =
    ingress-Brings taking_env waiting_ops 3 true (service true) [] (λ h. ground arith) refl refl
