-- ===== src/Data/Securing.antt =====
-- services/data/ssl.rs: what the imports and `enable_ssl` send, and when they panic.
use fibocom_cellular_rs.Data.Ingress.{on_service_network}
use fibocom_cellular_rs.Prelude.{
  ℕ, ◌≤◌, ◌<◌, ◌≡◌, ◌≢◌, arith, Bool, true, false, Option, some, [], ◌∷◌, List, length, ltb, ltb→lt,
  Bool-cases, inl, inr, if◌then◌else◌,
}
use fibocom_cellular_rs.Command.{
  Bytes, Command, DeviceDataSecurity, SecurityDataType, SecurityProfileOperation,
  CertificateValidationLevel,
}
use fibocom_cellular_rs.Error.{DataError}
use fibocom_cellular_rs.Env.{Env, Log, commands}
use fibocom_cellular_rs.Effect.{Fault, ok, halt, combinators}
use fibocom_cellular_rs.Network.{send_internal, send, handle_urc}
use fibocom_cellular_rs.Text.{IsBounded}
use fibocom_cellular_rs.Text.Fitting.{string-fits, string-overflows}
use fibocom_cellular_rs.Data.Ingress.{DataService}
use fibocom_cellular_rs.Data.Ssl.{secure, set_profile, import_data, enable_ssl}

abbrev pub profile : ℕ → SecurityProfileOperation → Command
profile id operation =
    Command.device_data_security (DeviceDataSecurity.security_profile_manager id (some operation))

module _ (env : Env) {S : Type 0} where
  secure-commands :
      (c : DeviceDataSecurity) (d : DataService S) (l : Log)
      → (commands (secure env c d l).2 ≡ Command.device_data_security c ∷ commands l)
        × ((x : Fault) → (secure env c d l).0 ≢ halt x)
  unfolding secure send_internal send handle_urc combinators on_service_network
  secure-commands c d l = (ground arith, λ x. ground arith)

-- With strings that take what fits and panic at anything longer, an import panics exactly if the
-- name has 200 bytes or more, and then before anything is sent; one that succeeds has announced the
-- data with its length, sent it, and put the name into the security profile, in this order.
pub import_data-commands :
    (env : Env) {S : Type 0} (type : SecurityDataType)
    (operation : Bytes → SecurityProfileOperation) (id : ℕ) (name content : Bytes)
    (password : Option Bytes) (d : DataService S) (l : Log)
    → IsBounded env
    → (200 ≤ length name
        → import_data env type operation id name content password d l ≡ (halt Fault.panicked, d, l))
      × (length name < 200
          → (x : Fault) → (import_data env type operation id name content password d l).0 ≢ halt x)
      × ((import_data env type operation id name content password d l).0 ≡ ok tt
          → commands (import_data env type operation id name content password d l).2
            ≡ profile id (operation name)
              ∷ Command.device_data_security (DeviceDataSecurity.send_security_data_import content)
              ∷ Command.device_data_security (
                  DeviceDataSecurity.prepare_security_data_import type name
                    (length content)
                    password)
              ∷ commands l)
unfolding import_data set_profile combinators
import_data-commands env {S = S} type operation id name content password d l b =
    let sc = secure-commands env {S = S} in
    let sf = (λ (d : DataService S) (l : Log) (h : length name ≤ 200).
      string-fits env {E = DataError} 200 name d l b h) in
    (λ h. ground arith, λ h x. grind arith, λ h. grind arith)

-- The settings of `enable_ssl`, newest first.
abbrev pub settings : ℕ → Bytes → Bytes → List Command → List Command
settings id hostname indication before =
    profile id (SecurityProfileOperation.server_name_indication indication)
    ∷ profile id (SecurityProfileOperation.expected_server_hostname hostname)
    ∷ profile id (SecurityProfileOperation.cipher_suite 0)
    ∷ profile id (
        SecurityProfileOperation.certificate_validation_level
          CertificateValidationLevel.root_cert_validation_with_validity_date)
    ∷ before

-- With strings that take what fits and panic at anything longer, and a hostname that fits,
-- `enable_ssl` never panics, and where it succeeds it has made the four
-- settings in order, the last one empty unless the name is to be indicated.
pub enable_ssl-commands :
    (env : Env) {S : Type 0} (id : ℕ) (hostname : Bytes) (use_sni : Bool) (d : DataService S)
    (l : Log)
    → IsBounded env
    → length hostname ≤ (if use_sni then 128 else 256)
    → ((x : Fault) → (enable_ssl env id hostname use_sni d l).0 ≢ halt x)
      × ((enable_ssl env id hostname use_sni d l).0 ≡ ok tt
          → commands (enable_ssl env id hostname use_sni d l).2
            ≡ settings id hostname (if use_sni then hostname else []) (commands l))
unfolding enable_ssl set_profile combinators
enable_ssl-commands env {S = S} id hostname true d l b h =
    let sc = secure-commands env {S = S} in
    let s256 = (λ (d : DataService S) (l : Log).
      string-fits env {E = DataError} 256 hostname d l b (omega arith)) in
    let s128 =
      (λ (d : DataService S) (l : Log). string-fits env {E = DataError} 128 hostname d l b h) in
    (λ x. grind arith, λ r. grind arith)
enable_ssl-commands env {S = S} id hostname false d l b h =
    let sc = secure-commands env {S = S} in
    let s256 =
      (λ (d : DataService S) (l : Log). string-fits env {E = DataError} 256 hostname d l b h) in
    (λ x. grind arith, λ r. grind arith)

-- The settings that are made before a hostname that is too long stops the driver, newest first.
abbrev pub settings_before : ℕ → Bytes → List Command → List Command
settings_before id hostname before =
    let begun =
      profile id (SecurityProfileOperation.cipher_suite 0)
      ∷ profile id (
          SecurityProfileOperation.certificate_validation_level
            CertificateValidationLevel.root_cert_validation_with_validity_date)
      ∷ before in
    if ltb 256 (length hostname)
    then begun
    else profile id (SecurityProfileOperation.expected_server_hostname hostname) ∷ begun

-- The module accepts every setting of the profile.
abbrev pub Accepts : Env → ℕ → Type 0
Accepts env id = (l : Log) (o : SecurityProfileOperation) → env.send_retry l (profile id o) ≡ inr tt

module _ (env : Env) {S : Type 0} (id : ℕ) (hostname : Bytes) (b : IsBounded env) where
  set_profile-accepted :
      (o : SecurityProfileOperation) (d : DataService S) (l : Log)
      → (Accepts env id → (set_profile env id o d l).0 ≡ ok tt)
        × (commands (set_profile env id o d l).2 ≡ profile id o ∷ commands l)
        × ((x : Fault) → (set_profile env id o d l).0 ≢ halt x)
  unfolding set_profile secure send_internal send handle_urc combinators on_service_network
  set_profile-accepted o d l = (λ accepts. grind arith, ground arith, λ x. ground arith)

  -- Either the hostname does not fit, whatever is to be indicated.
  longer :
      (use_sni : Bool) (d : DataService S) (l : Log)
      → 256 < length hostname
      → ((enable_ssl env id hostname use_sni d l).0 ≢ ok tt)
        × (Accepts env id
            → ((enable_ssl env id hostname use_sni d l).0 ≡ halt Fault.panicked)
              × (commands (enable_ssl env id hostname use_sni d l).2
                  ≡ settings_before id hostname (commands l)))
  unfolding enable_ssl combinators
  longer use_sni d l h =
      let sa = set_profile-accepted in
      let so = (λ (d : DataService S) (l : Log).
        string-overflows env {E = DataError} 256 hostname d l b h) in
      (λ r. grind arith, λ a. (grind arith, grind arith))

  -- Or it fits, and the name that is to be indicated does not.
  indicated :
      (d : DataService S) (l : Log)
      → length hostname ≤ 256
      → 128 < length hostname
      → ((enable_ssl env id hostname true d l).0 ≢ ok tt)
        × (Accepts env id
            → ((enable_ssl env id hostname true d l).0 ≡ halt Fault.panicked)
              × (commands (enable_ssl env id hostname true d l).2
                  ≡ settings_before id hostname (commands l)))
  unfolding enable_ssl combinators
  indicated d l f h =
      let sa = set_profile-accepted in
      let sf =
        (λ (d : DataService S) (l : Log). string-fits env {E = DataError} 256 hostname d l b f) in
      let so = (λ (d : DataService S) (l : Log).
        string-overflows env {E = DataError} 128 hostname d l b h) in
      (λ r. grind arith, λ a. (grind arith, grind arith))

-- With strings that take what fits and panic at anything longer, a hostname that is too long never
-- leads to success: longer than 256 bytes, or longer than 128 where it is to be indicated too,
-- although 256 bytes are accepted for the hostname itself. If the module accepts every setting of
-- the profile, the driver panics half way through them: a hostname of more than 256 bytes behind
-- the first two settings, and a shorter one, which is to be indicated, behind the first three.
pub enable_ssl-panics :
    (env : Env) {S : Type 0} (id : ℕ) (hostname : Bytes) (use_sni : Bool) (d : DataService S)
    (l : Log)
    → IsBounded env
    → (if use_sni then 128 else 256) < length hostname
    → ((enable_ssl env id hostname use_sni d l).0 ≢ ok tt)
      × (Accepts env id
          → ((enable_ssl env id hostname use_sni d l).0 ≡ halt Fault.panicked)
            × (commands (enable_ssl env id hostname use_sni d l).2
                ≡ settings_before id hostname (commands l)))
enable_ssl-panics env id hostname true d l b h = elim (Bool-cases (ltb 256 (length hostname))) [
  | inl more ↦ longer env id hostname b true d l (ltb→lt _ _ more)
  | inr less ↦ indicated env id hostname b d l (ground arith) h
]
enable_ssl-panics env id hostname false d l b h = longer env id hostname b false d l h
