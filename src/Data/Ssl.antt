-- ===== src/Data/Ssl.antt =====
-- services/data/ssl.rs: the TLS settings of a security profile, on a data service.
use fibocom_cellular_rs.Prelude.{ℕ, Bool, true, Option, none, some, [], ltb, if◌then◌else◌, length}
use fibocom_cellular_rs.Command.{
  Bytes, Command, DeviceDataSecurity, SecurityDataType, SecurityProfileOperation,
  CertificateValidationLevel,
}
use fibocom_cellular_rs.Error.{DataError, data_of_network}
use fibocom_cellular_rs.Env.{Env}
use fibocom_cellular_rs.Effect.{M, ◌>>=◌, ◌>>◌, pure, panic, map_err}
use fibocom_cellular_rs.Network.{send_internal}
use fibocom_cellular_rs.Text.{string}
use fibocom_cellular_rs.Data.Ingress.{DataService, on_service_network}

module _ (env : Env) {S : Type 0} where
  -- `self.network.send_internal(.., true)?`
  unfoldable pub secure : DeviceDataSecurity → M (DataService S) DataError (Unit {0})
  secure c = do
    answer ←
        map_err data_of_network
          (on_service_network (send_internal env (Command.device_data_security c) true))
    pure tt

  unfoldable pub set_profile : ℕ → SecurityProfileOperation → M (DataService S) DataError (Unit {0})
  set_profile profile_id operation =
      secure (DeviceDataSecurity.security_profile_manager profile_id (some operation))

  -- The body of the three imports: they differ in the type of the data, the password, and the
  -- operation that puts the name into the profile.
  unfoldable pub import_data :
      SecurityDataType
      → (Bytes → SecurityProfileOperation)
      → ℕ
      → Bytes
      → Bytes
      → Option Bytes
      → M (DataService S) DataError (Unit {0})
  import_data type operation profile_id name content password =
      if ltb (length name) 200
      then (do
        secure (DeviceDataSecurity.prepare_security_data_import type name (length content) password)
        secure (DeviceDataSecurity.send_security_data_import content)
        internal_name ← string env 200 name
        set_profile profile_id (operation internal_name))
      else panic

  unfoldable pub import_certificate : ℕ → Bytes → Bytes → M (DataService S) DataError (Unit {0})
  unfolding import_data
  import_certificate profile_id name certificate =
      import_data SecurityDataType.client_certificate
        SecurityProfileOperation.client_certificate_internal_name profile_id name certificate none

  unfoldable pub import_root_ca : ℕ → Bytes → Bytes → M (DataService S) DataError (Unit {0})
  unfolding import_data
  import_root_ca profile_id name root_ca =
      import_data SecurityDataType.trusted_root_ca
        SecurityProfileOperation.trusted_root_certificate_internal_name profile_id name root_ca none

  unfoldable pub import_private_key :
      ℕ → Bytes → Bytes → Option Bytes → M (DataService S) DataError (Unit {0})
  unfolding import_data
  import_private_key profile_id name private_key password =
      import_data SecurityDataType.client_private_key
        SecurityProfileOperation.client_private_key_internal_name profile_id name private_key
        password

  unfoldable pub enable_ssl : ℕ → Bytes → Bool → M (DataService S) DataError (Unit {0})
  enable_ssl profile_id server_hostname use_sni = do
    set_profile profile_id (
        SecurityProfileOperation.certificate_validation_level
          CertificateValidationLevel.root_cert_validation_with_validity_date)
    set_profile profile_id (SecurityProfileOperation.cipher_suite 0)
    hostname ← string env 256 server_hostname
    set_profile profile_id (SecurityProfileOperation.expected_server_hostname hostname)
    if use_sni
        then (do
          indication ← string env 128 server_hostname
          set_profile profile_id (SecurityProfileOperation.server_name_indication indication))
        else set_profile profile_id (SecurityProfileOperation.server_name_indication [])
