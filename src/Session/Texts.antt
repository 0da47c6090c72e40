-- ===== src/Session/Texts.antt =====
-- services/data: dns.rs and ssl.rs leave the network of a data service at one that the driver
-- reaches.
use fibocom_cellular_rs.Prelude.{ℕ, Bool, true, false, Option}
use fibocom_cellular_rs.Command.{
  Bytes, ResolutionType, DeviceDataSecurity, SecurityDataType, SecurityProfileOperation,
}
use fibocom_cellular_rs.Env.{Env}
use fibocom_cellular_rs.Effect.Laws.{
  Keeps, keeping, Keeps-option, Keeps-throw, Keeps-pure, Keeps->>=,
}
use fibocom_cellular_rs.Network.Reachable.{World}
use fibocom_cellular_rs.Network.Reaching.{send_internal-IsReached}
use fibocom_cellular_rs.Text.{TextOps}
use fibocom_cellular_rs.Text.Fitting.{string-Keeps}
use fibocom_cellular_rs.Data.Ingress.{DataService}
use fibocom_cellular_rs.Data.Reaching.{OfService, on_service_network-OfService}
use fibocom_cellular_rs.Data.Dns.{
  AddrType, resolve, parsed, host_string, get_host_by_name, get_host_by_address,
}
use fibocom_cellular_rs.Data.Ssl.{secure, set_profile, import_data, enable_ssl}

module _ (env : Env) (from : World → Type 0) {S : Type 0} (text : TextOps) where
  ruleset text_rules = (keeping, on_service_network-OfService, send_internal-IsReached)

  resolve-OfService :
      (t : ResolutionType) (query : Bytes)
      → Keeps {S = DataService S} (OfService env from) (resolve env text t query)
  unfolding resolve
  resolve-OfService t query = search text_rules depth 60

  parsed-OfService :
      (answer : Bytes) → Keeps {S = DataService S} (OfService env from) (parsed env text answer)
  parsed-OfService answer =
      Keeps-option (Keeps-throw _) (λ ip. Keeps-pure ip) (text.parse_ip answer)

  host_string-OfService :
      (name : Bytes) → Keeps {S = DataService S} (OfService env from) (host_string env text name)
  host_string-OfService name = string-Keeps env 256 name

  pub get_host_by_name-OfService :
      (hostname : Bytes) (t : AddrType)
      → Keeps {S = DataService S} (OfService env from) (get_host_by_name env text hostname t)
  unfolding get_host_by_name
  get_host_by_name-OfService hostname AddrType.ipv6 = search keeping
  get_host_by_name-OfService hostname _ =
      search (text_rules, resolve-OfService, parsed-OfService) depth 60

  pub get_host_by_address-OfService :
      (ip : Bytes)
      → Keeps {S = DataService S} (OfService env from) (get_host_by_address env text ip)
  unfolding get_host_by_address
  get_host_by_address-OfService ip =
      Keeps-option (Keeps-throw _)
        (λ query. Keeps->>= (resolve-OfService _ query) host_string-OfService) (text.write_ip ip)

  secure-OfService :
      (c : DeviceDataSecurity) → Keeps {S = DataService S} (OfService env from) (secure env c)
  unfolding secure
  secure-OfService c = search text_rules depth 60

  set_profile-OfService :
      (id : ℕ) (o : SecurityProfileOperation)
      → Keeps {S = DataService S} (OfService env from) (set_profile env id o)
  unfolding set_profile
  set_profile-OfService id o = secure-OfService _

  ruleset security_rules = (text_rules, secure-OfService, string-Keeps, set_profile-OfService)

  pub import_data-OfService :
      (t : SecurityDataType) (o : Bytes → SecurityProfileOperation) (id : ℕ) (name content : Bytes)
      (password : Option Bytes)
      → Keeps {S = DataService S}
          (OfService env from)
          (import_data env t o id name content password)
  unfolding import_data
  import_data-OfService t o id name content password = search security_rules depth 60

  pub enable_ssl-OfService :
      (id : ℕ) (hostname : Bytes) (sni : Bool)
      → Keeps {S = DataService S} (OfService env from) (enable_ssl env id hostname sni)
  unfolding enable_ssl
  enable_ssl-OfService id hostname true = search security_rules depth 60
  enable_ssl-OfService id hostname false = search security_rules depth 60
