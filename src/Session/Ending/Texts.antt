-- ===== src/Session/Ending/Texts.antt =====
-- services/data/ssl.rs and dns.rs: with texts that fit, no call panics.
use fibocom_cellular_rs.Prelude.{ℕ, ◌≤◌, ◌<◌, ◌≡◌, Bool, Option, inr, length, if◌then◌else◌, arith}
use fibocom_cellular_rs.Command.{
  Bytes, Command, ResolutionType, ResolveNameIpResponse, SecurityDataType, SecurityProfileOperation,
}
use fibocom_cellular_rs.Env.{Env, Log}
use fibocom_cellular_rs.Effect.{ok, combinators}
use fibocom_cellular_rs.Effect.Ends.{Ends, ending, Ends-option, Ends-pure, Ends-throw}
use fibocom_cellular_rs.Network.{send_internal, send, handle_urc}
use fibocom_cellular_rs.Network.Ending.{send_internal-Ends}
use fibocom_cellular_rs.Text.{TextOps, IsBounded}
use fibocom_cellular_rs.Text.Fitting.{string-fits}
use fibocom_cellular_rs.Error.{SocketError, NbError}
use fibocom_cellular_rs.Data.Ingress.{DataService, on_service_network}
use fibocom_cellular_rs.Data.Ending.{Ends-on_service_network}
use fibocom_cellular_rs.Data.Dns.{AddrType, resolve, parsed, get_host_by_name, get_host_by_address}
use fibocom_cellular_rs.Data.Ssl.{import_data, enable_ssl}
use fibocom_cellular_rs.Data.Securing.{import_data-commands, enable_ssl-commands}

-- `ResolveNameIpResponse`: the text of an answer is a `String<128>`.
pub record IsShortAnswer (env : Env) : Type 0 where
  pub short :
      (l : Log) (t : ResolutionType) (query : Bytes) (r : ResolveNameIpResponse)
      → env.send_retry l (Command.resolve_name_ip t query) ≡ inr r
      → length r.ip_domain_string ≤ 128

module _ (env : Env) (text : TextOps) {S : Type 0} where
  resolve-Ends :
      (t : ResolutionType) (query : Bytes) → Ends {S = DataService S} (resolve env text t query)
  unfolding resolve
  resolve-Ends t query = search (ending, Ends-on_service_network, send_internal-Ends) depth 40

  resolve-short :
      (t : ResolutionType) (query name : Bytes) (d : DataService S) (l : Log)
      → IsShortAnswer env
      → (resolve env text t query d l).0 ≡ ok name
      → length name ≤ 128
  unfolding resolve send_internal send handle_urc combinators on_service_network
  resolve-short t query name d l s h = let short = s.short in grind arith

  parsed-Ends : (answer : Bytes) → Ends {S = DataService S} (parsed env text answer)
  parsed-Ends answer = Ends-option (Ends-throw _) (λ ip. Ends-pure ip) (text.parse_ip answer)

  pub get_host_by_name-Ends :
      (hostname : Bytes) (t : AddrType)
      → Ends {S = DataService S} (get_host_by_name env text hostname t)
  unfolding get_host_by_name
  get_host_by_name-Ends hostname AddrType.ipv6 = search ending
  get_host_by_name-Ends hostname _ = search (ending, resolve-Ends, parsed-Ends) depth 40

  module _ (b : IsBounded env) where
    pub get_host_by_address-Ends :
        IsShortAnswer env
        → (ip : Bytes) → Ends {S = DataService S} (get_host_by_address env text ip)
    unfolding get_host_by_address combinators
    get_host_by_address-Ends s ip = record {
      ends = λ d l x h.
          let ends = λ (q : Bytes). (resolve-Ends ResolutionType.ip_to_domain_name q).ends d l x in
          let short =
            λ (q name : Bytes). resolve-short ResolutionType.ip_to_domain_name q name d l s in
          let fits = (λ (t : Bytes) (d : DataService S) (l : Log) (h : length t ≤ 256).
            string-fits env {E = NbError SocketError} 256 t d l b h) in
          grind arith;
    }

    pub import_data-Ends :
        (t : SecurityDataType) (o : Bytes → SecurityProfileOperation) (id : ℕ)
        (name content : Bytes) (password : Option Bytes)
        → length name < 200
        → Ends {S = DataService S} (import_data env t o id name content password)
    import_data-Ends t o id name content password h = record {
      ends = λ d l. (import_data-commands env t o id name content password d l b).1 h;
    }

    pub enable_ssl-Ends :
        (id : ℕ) (hostname : Bytes) (sni : Bool)
        → length hostname ≤ (if sni then 128 else 256)
        → Ends {S = DataService S} (enable_ssl env id hostname sni)
    enable_ssl-Ends id hostname sni h = record {
      ends = λ d l. (enable_ssl-commands env id hostname sni d l b h).0;
    }
