-- ===== src/Command/Request.antt =====
-- ublox-cellular/src/command: the command structs of the command modules. A profile, a context and
-- a socket handle are their numbers; an IP address and its port are one `SocketAddr`.
use fibocom_cellular_rs.Prelude.{ℕ, Option}
use fibocom_cellular_rs.Command.Types.{
  Bytes, OperatorSelectionMode, RadioAccessTechnologySelected, FirstRadioAccessTechnology,
  SecondRadioAccessTechnology, ThirdRadioAccessTechnology, NetworkRegistrationUrcConfig,
  PdpContextStatus, GprsAttachedState, GprsNetworkRegistrationUrcConfig,
  ExtendedPsNetworkRegistrationUrcConfig, EpsNetworkRegistrationUrcConfig, PsEventReportingMode,
  PacketSwitchedParam, PacketSwitchedParamReq, PacketSwitchedNetworkDataParam, PacketSwitchedAction,
  AuthenticationType, Functionality, ResetMode, AutomaticTimezone, TerminationErrorMode, Snt,
  Circuit109Behaviour, Circuit108Behaviour, FlowControl, SoftwareFlowControl, BaudRate, GpioMode,
  PowerSavingMode, FsFactoryRestoreType, NvmFactoryRestoreType, SocketProtocol, SslTlsStatus,
  HexMode, SocketControlParam, SecurityDataType, SecurityProfileOperation, MessageWaitingMode,
  ResolutionType, SocketAddr,
}

-- mobile_control/mod.rs
pub data MobileControl : Type 0 where
  module_switch_off : MobileControl
  set_module_functionality : Functionality → Option ResetMode → MobileControl
  get_module_functionality : MobileControl
  get_indicator_control : MobileControl
  set_clock : (time : Bytes) → MobileControl
  get_clock : MobileControl
  set_automatic_timezone_update : AutomaticTimezone → MobileControl
  set_report_mobile_termination_error : TerminationErrorMode → MobileControl
  get_report_mobile_termination_error : MobileControl
  get_extended_error_report : MobileControl

-- network_service/mod.rs. The source has two structs `SetRadioAccessTechnology`: the second is
-- that of the lara-r6.
pub data NetworkService : Type 0 where
  get_signal_quality : NetworkService
  set_operator_selection : OperatorSelectionMode → Option ℕ → NetworkService
  get_operator_selection : NetworkService
  set_radio_access_technology : RadioAccessTechnologySelected → NetworkService
  set_radio_access_technology_lara_r6 :
      FirstRadioAccessTechnology
      → Option SecondRadioAccessTechnology
      → Option ThirdRadioAccessTechnology
      → NetworkService
  get_radio_access_technology : NetworkService
  set_network_registration_status : NetworkRegistrationUrcConfig → NetworkService
  get_network_registration_status : NetworkService

-- psn/mod.rs
pub data Psn : Type 0 where
  set_pdp_context_definition : (cid : ℕ) (pdp_type apn : Bytes) → Psn
  set_packet_switched_config : (profile_id : ℕ) → PacketSwitchedParam → Psn
  get_packet_switched_config : (profile_id : ℕ) → PacketSwitchedParamReq → Psn
  set_packet_switched_action : (profile_id : ℕ) → PacketSwitchedAction → Psn
  get_packet_switched_network_data : (profile_id : ℕ) → PacketSwitchedNetworkDataParam → Psn
  set_gprs_attached : GprsAttachedState → Psn
  get_gprs_attached : Psn
  set_pdp_context_state : PdpContextStatus → Option ℕ → Psn
  get_pdp_context_state : Psn
  set_packet_switched_event_reporting : PsEventReportingMode → Option ℕ → Psn
  set_gprs_network_registration_status : GprsNetworkRegistrationUrcConfig → Psn
  get_gprs_network_registration_status : Psn
  set_extended_ps_network_registration_status : ExtendedPsNetworkRegistrationUrcConfig → Psn
  get_extended_ps_network_registration_status : Psn
  set_eps_network_registration_status : EpsNetworkRegistrationUrcConfig → Psn
  get_eps_network_registration_status : Psn
  set_auth_parameters : (cid : ℕ) → AuthenticationType → (username password : Bytes) → Psn

-- general/mod.rs
pub data General : Type 0 where
  get_manufacturer_id get_model_id get_firmware_version : General
  get_imei : (snt : Option Snt) → General
  identification_information : (n : ℕ) → General
  get_cimi get_ccid : General

-- control/mod.rs
pub data Control : Type 0 where
  set_circuit_109_behaviour : Circuit109Behaviour → Control
  set_circuit_108_behaviour : Circuit108Behaviour → Control
  set_flow_control : FlowControl → Control
  set_software_flow_control : SoftwareFlowControl → Control
  set_data_rate : BaudRate → Control
  factory_reset_config : Control

-- system_features/mod.rs. The timeout is a `Seconds`.
pub data SystemFeatures : Type 0 where
  set_power_saving_control : PowerSavingMode → Option ℕ → SystemFeatures
  get_power_saving_control : SystemFeatures
  set_factory_configuration : FsFactoryRestoreType → NvmFactoryRestoreType → SystemFeatures
  get_factory_configuration : SystemFeatures

-- device_lock/mod.rs
pub data DeviceLock : Type 0 where
  get_pin_status : DeviceLock
  set_pin : (pin : Bytes) → DeviceLock
  change_pin : (puk newpin : Bytes) → DeviceLock

-- ip_transport_layer/mod.rs
pub data IpTransportLayer : Type 0 where
  create_socket : SocketProtocol → Option ℕ → IpTransportLayer
  set_socket_ssl_state : (socket : ℕ) → SslTlsStatus → IpTransportLayer
  close_socket : (socket : ℕ) → IpTransportLayer
  get_socket_error : IpTransportLayer
  connect_socket : (socket : ℕ) → SocketAddr → IpTransportLayer
  write_socket_data : (socket length : ℕ) → Bytes → IpTransportLayer
  write_socket_data_hex : (socket length : ℕ) → Bytes → IpTransportLayer
  prepare_write_socket_data_binary : (socket length : ℕ) → IpTransportLayer
  write_socket_data_binary : Bytes → IpTransportLayer
  prepare_udp_send_to_data_binary : (socket : ℕ) → SocketAddr → (length : ℕ) → IpTransportLayer
  udp_send_to_data_binary : Bytes → IpTransportLayer
  read_socket_data : (socket length : ℕ) → IpTransportLayer
  read_udp_socket_data : (socket length : ℕ) → IpTransportLayer
  set_hex_mode : HexMode → IpTransportLayer
  socket_control : (socket : ℕ) → SocketControlParam → IpTransportLayer

-- device_data_security/mod.rs
pub data DeviceDataSecurity : Type 0 where
  prepare_security_data_import :
      SecurityDataType
      → (internal_name : Bytes) (data_size : ℕ) (password : Option Bytes) → DeviceDataSecurity
  send_security_data_import : Bytes → DeviceDataSecurity
  delete_security_data : SecurityDataType → (internal_name : Bytes) → DeviceDataSecurity
  list_security_data : DeviceDataSecurity
  retrieve_security_md5 : SecurityDataType → (internal_name : Bytes) → DeviceDataSecurity
  security_profile_manager : (profile_id : ℕ) → Option SecurityProfileOperation → DeviceDataSecurity

-- file_system/mod.rs
pub data FileSystem : Type 0 where
  prepare_download_file : (filename : Bytes) (size : ℕ) → FileSystem
  download_file : (text : Bytes) → FileSystem
  list_files : FileSystem
  read_file : (filename : Bytes) → FileSystem
  read_block : (filename : Bytes) (offset size : ℕ) → FileSystem
  delete_file : (filename : Bytes) → FileSystem

-- The modules with one or two commands are not data types of their own: gpio/mod.rs, sms/mod.rs
-- and dns/mod.rs.
pub data Command : Type 0 where
  at : Command
  mobile_control : MobileControl → Command
  network_service : NetworkService → Command
  psn : Psn → Command
  general : General → Command
  control : Control → Command
  set_gpio_configuration : (gpio_id : ℕ) → GpioMode → Command
  get_gpio_configuration : Command
  system_features : SystemFeatures → Command
  device_lock : DeviceLock → Command
  ip_transport_layer : IpTransportLayer → Command
  device_data_security : DeviceDataSecurity → Command
  file_system : FileSystem → Command
  set_message_waiting_indication : MessageWaitingMode → Command
  resolve_name_ip : ResolutionType → Bytes → Command
