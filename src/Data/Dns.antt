-- ===== src/Data/Dns.antt =====
-- services/data/dns.rs: names and addresses, resolved by the module.
use fibocom_cellular_rs.Prelude.{true, none, some}
use fibocom_cellular_rs.Command.{Bytes, Command, ResolutionType}
use fibocom_cellular_rs.Error.{SocketError, NbError}
use fibocom_cellular_rs.Env.{Env}
use fibocom_cellular_rs.Effect.{M, ◌>>=◌, pure, throw, map_err}
use fibocom_cellular_rs.Network.{send_internal}
use fibocom_cellular_rs.Text.{TextOps, string}
use fibocom_cellular_rs.Data.Ingress.{DataService, on_service_network}

-- embedded_nal::AddrType
pub data AddrType : Type 0 where
  ipv4 ipv6 either : AddrType

module _ (env : Env) (text : TextOps) {S : Type 0} where
  -- The query, whose error is given up for `Unaddressable`.
  unfoldable pub resolve : ResolutionType → Bytes → M (DataService S) (NbError SocketError) Bytes
  resolve type query = do
    res ←
        map_err (λ _. NbError.other SocketError.unaddressable)
          (on_service_network (send_internal env (Command.resolve_name_ip type query) true))
    pure res.ip_domain_string

  -- `String::from(resp.ip_domain_string.as_str())`, from a `String<128>`
  abbrev pub host_string : Bytes → M (DataService S) (NbError SocketError) Bytes
  host_string name = string env 256 name

  unfoldable pub get_host_by_address : Bytes → M (DataService S) (NbError SocketError) Bytes
  get_host_by_address ip_addr = elim (text.write_ip ip_addr) [
    | none ↦ throw (NbError.other SocketError.bad_length)
    | some ip_str ↦ (do name ← resolve ResolutionType.ip_to_domain_name ip_str; host_string name)
  ]

  -- `.parse().map_err(|_| Illegal)`
  abbrev pub parsed : Bytes → M (DataService S) (NbError SocketError) Bytes
  parsed answer = elim (text.parse_ip answer) [
    | none ↦ throw (NbError.other SocketError.illegal)
    | some ip ↦ pure ip
  ]

  unfoldable pub get_host_by_name : Bytes → AddrType → M (DataService S) (NbError SocketError) Bytes
  get_host_by_name hostname AddrType.ipv6 = throw (NbError.other SocketError.illegal)
  get_host_by_name hostname _ = do
    answer ← resolve ResolutionType.domain_name_to_ip hostname
    parsed answer
