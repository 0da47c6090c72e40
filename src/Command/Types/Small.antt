-- ===== src/Command/Types/Small.antt =====
-- ublox-cellular/src/command: the types.rs of general, device_lock, system_features,
-- ip_transport_layer, sms and dns.
-- `..._code` is the number of a variant, and `..._tag` that of a variant with fields.
use fibocom_cellular_rs.Prelude.{ℕ}

-- general/types.rs
pub data Snt : Type 0 where
  imei imeisv svn imei_extended : Snt

unfoldable pub snt_code : Snt → ℕ
snt_code Snt.imei = 0
snt_code Snt.imeisv = 2
snt_code Snt.svn = 3
snt_code Snt.imei_extended = 255

-- device_lock/types.rs
pub data PinStatusCode : Type 0 where
  ready sim_pin sim_puk sim_pin2 sim_puk2 ph_net_pin ph_net_sub_pin : PinStatusCode
  ph_sp_pin ph_corp_pin ph_sim_pin : PinStatusCode

-- system_features/types.rs
pub data PowerSavingMode : Type 0 where
  disabled enabled ctrl_by_rts ctrl_by_dtr : PowerSavingMode

unfoldable pub power_saving_mode_code : PowerSavingMode → ℕ
power_saving_mode_code PowerSavingMode.disabled = 0
power_saving_mode_code PowerSavingMode.enabled = 1
power_saving_mode_code PowerSavingMode.ctrl_by_rts = 2
power_saving_mode_code PowerSavingMode.ctrl_by_dtr = 3

pub data FsFactoryRestoreType : Type 0 where
  no_restore fs_flash_sectors all_files : FsFactoryRestoreType

unfoldable pub fs_factory_restore_type_code : FsFactoryRestoreType → ℕ
fs_factory_restore_type_code FsFactoryRestoreType.no_restore = 0
fs_factory_restore_type_code FsFactoryRestoreType.fs_flash_sectors = 1
fs_factory_restore_type_code FsFactoryRestoreType.all_files = 2

pub data NvmFactoryRestoreType : Type 0 where
  no_restore nvm_flash_sectors internal_use_only : NvmFactoryRestoreType

unfoldable pub nvm_factory_restore_type_code : NvmFactoryRestoreType → ℕ
nvm_factory_restore_type_code NvmFactoryRestoreType.no_restore = 0
nvm_factory_restore_type_code NvmFactoryRestoreType.nvm_flash_sectors = 1
nvm_factory_restore_type_code NvmFactoryRestoreType.internal_use_only = 2

-- ip_transport_layer/types.rs
pub data SocketProtocol : Type 0 where
  tcp udp : SocketProtocol

unfoldable pub socket_protocol_code : SocketProtocol → ℕ
socket_protocol_code SocketProtocol.tcp = 6
socket_protocol_code SocketProtocol.udp = 17

pub data SslTlsStatus : Type 0 where
  disabled : SslTlsStatus
  enabled : ℕ → SslTlsStatus

unfoldable pub ssl_tls_status_tag : SslTlsStatus → ℕ
ssl_tls_status_tag SslTlsStatus.disabled = 0
ssl_tls_status_tag (SslTlsStatus.enabled x) = 1

pub data HexMode : Type 0 where
  disabled enabled : HexMode

unfoldable pub hex_mode_code : HexMode → ℕ
hex_mode_code HexMode.disabled = 0
hex_mode_code HexMode.enabled = 1

pub data SocketControlParam : Type 0 where
  socket_type last_socket_error bytes_sent bytes_received : SocketControlParam
  remote_peer_socket_addr socket_status outgoing_unack_data : SocketControlParam

unfoldable pub socket_control_param_code : SocketControlParam → ℕ
socket_control_param_code SocketControlParam.socket_type = 0
socket_control_param_code SocketControlParam.last_socket_error = 1
socket_control_param_code SocketControlParam.bytes_sent = 2
socket_control_param_code SocketControlParam.bytes_received = 3
socket_control_param_code SocketControlParam.remote_peer_socket_addr = 4
socket_control_param_code SocketControlParam.socket_status = 10
socket_control_param_code SocketControlParam.outgoing_unack_data = 11

-- sms/types.rs
pub data MessageIndicationType : Type 0 where
  voice_message fax_message email_message extended_message : MessageIndicationType
  video_message voice_message_line2 reserved : MessageIndicationType

unfoldable pub message_indication_type_code : MessageIndicationType → ℕ
message_indication_type_code MessageIndicationType.voice_message = 1
message_indication_type_code MessageIndicationType.fax_message = 2
message_indication_type_code MessageIndicationType.email_message = 3
message_indication_type_code MessageIndicationType.extended_message = 4
message_indication_type_code MessageIndicationType.video_message = 5
message_indication_type_code MessageIndicationType.voice_message_line2 = 6
message_indication_type_code MessageIndicationType.reserved = 7

pub data MessageWaitingMode : Type 0 where
  disabled enabled : MessageWaitingMode

unfoldable pub message_waiting_mode_code : MessageWaitingMode → ℕ
message_waiting_mode_code MessageWaitingMode.disabled = 0
message_waiting_mode_code MessageWaitingMode.enabled = 1

-- dns/types.rs
pub data ResolutionType : Type 0 where
  domain_name_to_ip ip_to_domain_name : ResolutionType

unfoldable pub resolution_type_code : ResolutionType → ℕ
resolution_type_code ResolutionType.domain_name_to_ip = 0
resolution_type_code ResolutionType.ip_to_domain_name = 1
