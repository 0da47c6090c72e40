-- ===== src/Data/Resolving.antt =====
-- services/data/dns.rs: what a resolution asks, and what it makes of the answer.
use fibocom_cellular_rs.Prelude.{◌≡◌, ◌≢◌, ◌∷◌, none, some, ◌⊎◌, inl, inr, arith}
use fibocom_cellular_rs.Command.{Bytes, Command, ResolutionType, ResolveNameIpResponse}
use fibocom_cellular_rs.Error.{AtError, SocketError, NbError}
use fibocom_cellular_rs.Env.{Env, Event, Log, commands}
use fibocom_cellular_rs.Effect.{Outcome, ok, err, combinators}
use fibocom_cellular_rs.Network.{send_internal, handle_urc}
use fibocom_cellular_rs.Network.State.{send}
use fibocom_cellular_rs.Text.{TextOps}
use fibocom_cellular_rs.Data.Ingress.{DataService, on_service_network}
use fibocom_cellular_rs.Data.Dns.{AddrType, resolve, get_host_by_name}

-- What becomes of an answer to a query for a name.
abbrev pub address_of :
    TextOps → AtError ⊎ ResolveNameIpResponse → Outcome (NbError SocketError) Bytes
address_of text (inl e) = err (NbError.other SocketError.unaddressable)
address_of text (inr res) = elim (text.parse_ip res.ip_domain_string) [
  | none ↦ err (NbError.other SocketError.illegal)
  | some ip ↦ ok ip
]

-- A name is resolved by a single query, behind at most one message of the module, unless an IPv6
-- address is wanted, which is refused as illegal with nothing sent and nothing changed. The result
-- is the address that the answer's text names; it is `unaddressable` if the query fails, and
-- `illegal` if the text names no address.
pub get_host_by_name_lem :
    (env : Env) (text : TextOps) {S : Type 0} (hostname : Bytes) (type : AddrType)
    (d : DataService S) (l : Log)
    → let r = get_host_by_name env text hostname type d l in
      let query = Command.resolve_name_ip ResolutionType.domain_name_to_ip hostname in
      (type ≡ AddrType.ipv6 → r ≡ (err (NbError.other SocketError.illegal), d, l))
      × (type ≢ AddrType.ipv6
          → (commands r.2 ≡ query ∷ commands l)
            × (r.0 ≡ address_of text (env.send_retry (Event.network_urc_polled ∷ l) query)))
unfolding get_host_by_name resolve send_internal send handle_urc combinators on_service_network
get_host_by_name_lem env text hostname type d l =
    (λ h. ground arith, λ h. (ground arith, ground arith))
