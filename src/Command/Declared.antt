-- ===== src/Command/Declared.antt =====
-- ublox-cellular/src/command: the response type that each command struct declares.
use fibocom_cellular_rs.Prelude.{List}
use fibocom_cellular_rs.Command.Types.{Bytes}
use fibocom_cellular_rs.Command.Responses.{
  NetworkRegistrationStatus, GprsNetworkRegistrationStatus, EpsNetworkRegistrationStatus,
  ExtendedPsNetworkRegistrationStatus, OperatorSelection, SignalQuality, RadioAccessTechnology,
  GprsAttached, PdpContextState, PacketSwitchedConfig, PacketSwitchedNetworkData, PinStatus,
  ModuleFunctionality, IndicatorControl, DateTime, ReportMobileTerminationError,
  ExtendedErrorReport, ManufacturerId, ModelId, FirmwareVersion, Imei,
  IdentificationInformationResponse, Cimi, Ccid, GpioConfiguration, PowerSavingControl,
  FactoryConfiguration, CreateSocketResponse, SocketErrorResponse, WriteSocketDataResponse,
  UdpSendToDataResponse, SocketData, UdpSocketData, SocketControlResponse, ResolveNameIpResponse,
  ReadFileResponse, ReadBlockResponse, SecurityDataImport, SecurityData,
}
use fibocom_cellular_rs.Command.Request.{
  MobileControl, NetworkService, Psn, General, SystemFeatures, DeviceLock, IpTransportLayer,
  DeviceDataSecurity, FileSystem, Command,
}

-- `NoResponse` is the unit.
abbrev MobileControlResponse : MobileControl → Type 0
MobileControlResponse MobileControl.get_module_functionality = ModuleFunctionality
MobileControlResponse MobileControl.get_indicator_control = IndicatorControl
MobileControlResponse MobileControl.get_clock = DateTime
MobileControlResponse MobileControl.get_report_mobile_termination_error =
    ReportMobileTerminationError
MobileControlResponse MobileControl.get_extended_error_report = ExtendedErrorReport
MobileControlResponse _ = Unit {0}

abbrev NetworkServiceResponse : NetworkService → Type 0
NetworkServiceResponse NetworkService.get_signal_quality = SignalQuality
NetworkServiceResponse NetworkService.get_operator_selection = OperatorSelection
NetworkServiceResponse NetworkService.get_radio_access_technology = RadioAccessTechnology
NetworkServiceResponse NetworkService.get_network_registration_status = NetworkRegistrationStatus
NetworkServiceResponse _ = Unit {0}

abbrev PsnResponse : Psn → Type 0
PsnResponse (Psn.get_packet_switched_config p r) = PacketSwitchedConfig
PsnResponse (Psn.get_packet_switched_network_data p r) = PacketSwitchedNetworkData
PsnResponse Psn.get_gprs_attached = GprsAttached
PsnResponse Psn.get_pdp_context_state = List PdpContextState
PsnResponse Psn.get_gprs_network_registration_status = GprsNetworkRegistrationStatus
PsnResponse Psn.get_extended_ps_network_registration_status = ExtendedPsNetworkRegistrationStatus
PsnResponse Psn.get_eps_network_registration_status = EpsNetworkRegistrationStatus
PsnResponse _ = Unit {0}

abbrev GeneralResponse : General → Type 0
GeneralResponse General.get_manufacturer_id = ManufacturerId
GeneralResponse General.get_model_id = ModelId
GeneralResponse General.get_firmware_version = FirmwareVersion
GeneralResponse (General.get_imei s) = Imei
GeneralResponse (General.identification_information n) = IdentificationInformationResponse
GeneralResponse General.get_cimi = Cimi
GeneralResponse General.get_ccid = Ccid

abbrev SystemFeaturesResponse : SystemFeatures → Type 0
SystemFeaturesResponse SystemFeatures.get_power_saving_control = PowerSavingControl
SystemFeaturesResponse SystemFeatures.get_factory_configuration = FactoryConfiguration
SystemFeaturesResponse _ = Unit {0}

abbrev DeviceLockResponse : DeviceLock → Type 0
DeviceLockResponse DeviceLock.get_pin_status = PinStatus
DeviceLockResponse _ = Unit {0}

abbrev IpTransportLayerResponse : IpTransportLayer → Type 0
IpTransportLayerResponse (IpTransportLayer.create_socket p l) = CreateSocketResponse
IpTransportLayerResponse IpTransportLayer.get_socket_error = SocketErrorResponse
IpTransportLayerResponse (IpTransportLayer.write_socket_data s n d) = WriteSocketDataResponse
IpTransportLayerResponse (IpTransportLayer.write_socket_data_hex s n d) = WriteSocketDataResponse
IpTransportLayerResponse (IpTransportLayer.write_socket_data_binary d) = WriteSocketDataResponse
IpTransportLayerResponse (IpTransportLayer.udp_send_to_data_binary d) = UdpSendToDataResponse
IpTransportLayerResponse (IpTransportLayer.read_socket_data s n) = SocketData
IpTransportLayerResponse (IpTransportLayer.read_udp_socket_data s n) = UdpSocketData
IpTransportLayerResponse (IpTransportLayer.socket_control s p) = SocketControlResponse
IpTransportLayerResponse _ = Unit {0}

abbrev DeviceDataSecurityResponse : DeviceDataSecurity → Type 0
DeviceDataSecurityResponse (DeviceDataSecurity.send_security_data_import d) = SecurityDataImport
DeviceDataSecurityResponse DeviceDataSecurity.list_security_data = List SecurityData
DeviceDataSecurityResponse (DeviceDataSecurity.retrieve_security_md5 t n) = SecurityDataImport
DeviceDataSecurityResponse _ = Unit {0}

abbrev FileSystemResponse : FileSystem → Type 0
FileSystemResponse FileSystem.list_files = List Bytes
FileSystemResponse (FileSystem.read_file f) = ReadFileResponse
FileSystemResponse (FileSystem.read_block f o s) = ReadBlockResponse
FileSystemResponse _ = Unit {0}

-- `A::Response`
abbrev pub Response : Command → Type 0
Response (Command.mobile_control c) = MobileControlResponse c
Response (Command.network_service c) = NetworkServiceResponse c
Response (Command.psn c) = PsnResponse c
Response (Command.general c) = GeneralResponse c
Response Command.get_gpio_configuration = GpioConfiguration
Response (Command.system_features c) = SystemFeaturesResponse c
Response (Command.device_lock c) = DeviceLockResponse c
Response (Command.ip_transport_layer c) = IpTransportLayerResponse c
Response (Command.device_data_security c) = DeviceDataSecurityResponse c
Response (Command.file_system c) = FileSystemResponse c
Response (Command.resolve_name_ip t s) = ResolveNameIpResponse
Response _ = Unit {0}
