-- ===== src/Command/Types/Security.antt =====
-- ublox-cellular/src/command/device_data_security/types.rs.
-- `..._code` is the number of a variant, and `..._tag` that of a variant with fields.
use fibocom_cellular_rs.Prelude.{ℕ, Bool}
use fibocom_cellular_rs.Command.Types.Text.{Bytes}

pub data SecurityOperation : Type 0 where
  import_stream import_fs remove list retrieve_md5 : SecurityOperation

unfoldable pub security_operation_code : SecurityOperation → ℕ
security_operation_code SecurityOperation.import_stream = 0
security_operation_code SecurityOperation.import_fs = 1
security_operation_code SecurityOperation.remove = 2
security_operation_code SecurityOperation.list = 3
security_operation_code SecurityOperation.retrieve_md5 = 4

pub data SecurityDataType : Type 0 where
  trusted_root_ca client_certificate client_private_key rfu : SecurityDataType
  signature_verification_certificate signature_verification_public_key : SecurityDataType

unfoldable pub security_data_type_code : SecurityDataType → ℕ
security_data_type_code SecurityDataType.trusted_root_ca = 0
security_data_type_code SecurityDataType.client_certificate = 1
security_data_type_code SecurityDataType.client_private_key = 2
security_data_type_code SecurityDataType.rfu = 3
security_data_type_code SecurityDataType.signature_verification_certificate = 4
security_data_type_code SecurityDataType.signature_verification_public_key = 5

pub data PinningLevel : Type 0 where
  level0 level1 level2 : PinningLevel

unfoldable pub pinning_level_code : PinningLevel → ℕ
pinning_level_code PinningLevel.level0 = 0
pinning_level_code PinningLevel.level1 = 1
pinning_level_code PinningLevel.level2 = 2

pub data CertificateValidationLevel : Type 0 where
  no_validation root_cert_validation_without_integrity : CertificateValidationLevel
  root_cert_validation_with_integrity : CertificateValidationLevel
  root_cert_validation_with_validity_date : CertificateValidationLevel

unfoldable pub certificate_validation_level_code : CertificateValidationLevel → ℕ
certificate_validation_level_code CertificateValidationLevel.no_validation = 0
certificate_validation_level_code
      CertificateValidationLevel.root_cert_validation_without_integrity =
    1
certificate_validation_level_code CertificateValidationLevel.root_cert_validation_with_integrity = 2
certificate_validation_level_code
      CertificateValidationLevel.root_cert_validation_with_validity_date =
    3

pub data SecurityProfileOperation : Type 0 where
  certificate_validation_level : CertificateValidationLevel → SecurityProfileOperation
  ssl_tsl_version : SecurityProfileOperation
  cipher_suite : ℕ → SecurityProfileOperation
  trusted_root_certificate_internal_name : Bytes → SecurityProfileOperation
  expected_server_hostname : Bytes → SecurityProfileOperation
  client_certificate_internal_name : Bytes → SecurityProfileOperation
  client_private_key_internal_name : Bytes → SecurityProfileOperation
  client_private_key_password : Bytes → SecurityProfileOperation
  preshared_key preshared_key_identity : SecurityProfileOperation
  server_name_indication : Bytes → SecurityProfileOperation
  psk_key : Bool → SecurityProfileOperation
  server_certificate_pinning : Bytes → PinningLevel → SecurityProfileOperation
  tls_session_resumption : SecurityProfileOperation

unfoldable pub security_profile_operation_tag : SecurityProfileOperation → ℕ
security_profile_operation_tag (SecurityProfileOperation.certificate_validation_level x) = 0
security_profile_operation_tag SecurityProfileOperation.ssl_tsl_version = 1
security_profile_operation_tag (SecurityProfileOperation.cipher_suite x) = 2
security_profile_operation_tag (SecurityProfileOperation.trusted_root_certificate_internal_name x) =
    3
security_profile_operation_tag (SecurityProfileOperation.expected_server_hostname x) = 4
security_profile_operation_tag (SecurityProfileOperation.client_certificate_internal_name x) = 5
security_profile_operation_tag (SecurityProfileOperation.client_private_key_internal_name x) = 6
security_profile_operation_tag (SecurityProfileOperation.client_private_key_password x) = 7
security_profile_operation_tag SecurityProfileOperation.preshared_key = 8
security_profile_operation_tag SecurityProfileOperation.preshared_key_identity = 9
security_profile_operation_tag (SecurityProfileOperation.server_name_indication x) = 10
security_profile_operation_tag (SecurityProfileOperation.psk_key x) = 11
security_profile_operation_tag (SecurityProfileOperation.server_certificate_pinning x y) = 12
security_profile_operation_tag SecurityProfileOperation.tls_session_resumption = 13
