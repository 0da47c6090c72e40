-- ===== src/Command/Responses/Transfer.antt =====
-- ublox-cellular/src/command: the responses.rs of ip_transport_layer, dns, file_system and
-- device_data_security. A socket handle is its number; `payload` is the source's `data`.
use fibocom_cellular_rs.Prelude.{ℕ, Option}
use fibocom_cellular_rs.Command.Types.{
  Bytes, SocketControlParam, SecurityOperation, SecurityDataType,
}

pub record CreateSocketResponse : Type 0 where
  pub socket : ℕ

pub record SocketErrorResponse : Type 0 where
  pub error : ℕ

pub record WriteSocketDataResponse : Type 0 where
  pub socket : ℕ
  pub length : ℕ

pub record UdpSendToDataResponse : Type 0 where
  pub socket : ℕ
  pub length : ℕ

pub record SocketData : Type 0 where
  pub socket : ℕ
  pub length : ℕ
  pub payload : Option Bytes

pub record UdpSocketData : Type 0 where
  pub socket : ℕ
  pub remote_addr : Bytes
  pub remote_port : ℕ
  pub length : ℕ
  pub payload : Option Bytes

pub record SocketControlResponse : Type 0 where
  pub socket : ℕ
  pub param_id : SocketControlParam
  pub param_val : ℕ

pub record ResolveNameIpResponse : Type 0 where
  pub ip_domain_string : Bytes

pub record ReadFileResponse : Type 0 where
  pub filename : Bytes
  pub size : ℕ
  pub payload : Bytes

pub record ReadBlockResponse : Type 0 where
  pub filename : Bytes
  pub size : ℕ
  pub payload : Bytes

pub record SecurityDataImport : Type 0 where
  pub op_code : SecurityOperation
  pub data_type : SecurityDataType
  pub internal_name : Bytes
  pub md5_string : Bytes

pub record SecurityData : Type 0 where
  pub cert_type : Bytes
  pub internal_name : Bytes
  pub common_name : Option Bytes
  pub expiration_date : Option Bytes
