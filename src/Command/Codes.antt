-- ===== src/Command/Codes.antt =====
-- ublox-cellular/src/command: the enums without fields that the derive macro `AtatEnum` turns into
-- numbers, as one family, with the integer type that the number is sent in.
pub mod Variants
pub mod Lookup
pub mod Distinct
use fibocom_cellular_rs.Prelude.{ℕ}
use fibocom_cellular_rs.Command.Types.{
  AuthenticationType, AutomaticTimezone, BaudRate, CertificateValidationLevel, Circuit108Behaviour,
  Circuit109Behaviour, DataCompression, EpsNetworkRegistrationStat, EpsNetworkRegistrationUrcConfig,
  ExtendedPsNetworkRegistrationState, ExtendedPsNetworkRegistrationUrcConfig,
  FirstRadioAccessTechnology, FlowControl, FsFactoryRestoreType, Functionality, GpioInPull,
  GpioOutValue, GprsAttachedState, GprsNetworkRegistrationStat, GprsNetworkRegistrationUrcConfig,
  HeaderCompression, HexMode, MessageIndicationType, MessageWaitingMode, NetworkRegistrationStat,
  NetworkRegistrationUrcConfig, NvmFactoryRestoreType, OperatorSelectionMode, PacketSwitchedAction,
  PacketSwitchedNetworkDataParam, PacketSwitchedParamReq, PdpContextStatus, PinningLevel, PowerMode,
  PowerSavingMode, ProtocolType, PsEventReportingMode, QosDelay, QosPrecedence, QosReliability,
  RatAct, RatPreferred, ReportMobileTerminationErrorStatus, ResetMode, ResolutionType,
  SecondRadioAccessTechnology, SecurityDataType, SecurityOperation, Snt, SocketControlParam,
  SocketProtocol, SoftwareFlowControl, StkMode, TerminationErrorMode, ThirdRadioAccessTechnology,
}
use fibocom_cellular_rs.Command.Types.{
  operator_selection_mode_code, rat_act_code, network_registration_urc_config_code,
  network_stat_code, rat_preferred_code, first_radio_access_technology_code,
  second_radio_access_technology_code, third_radio_access_technology_code, pdp_context_status_code,
  packet_switched_param_req_code, protocol_type_code, authentication_type_code,
  data_compression_code, header_compression_code, qos_precedence_code, qos_delay_code,
  qos_reliability_code, packet_switched_action_code, packet_switched_network_data_param_code,
  gprs_attached_state_code, gprs_network_registration_urc_config_code, ps_event_reporting_mode_code,
  gprs_stat_code, extended_ps_network_registration_urc_config_code,
  extended_ps_network_registration_state_code, eps_network_registration_urc_config_code,
  eps_stat_code, functionality_code, reset_mode_code, automatic_timezone_code,
  termination_error_mode_code, power_mode_code, stk_mode_code,
  report_mobile_termination_error_status_code, circuit109_behaviour_code, circuit108_behaviour_code,
  flow_control_code, software_flow_control_code, baud_rate_code, gpio_out_value_code,
  gpio_in_pull_code, security_operation_code, security_data_type_code, pinning_level_code,
  certificate_validation_level_code, snt_code, power_saving_mode_code, fs_factory_restore_type_code,
  nvm_factory_restore_type_code, socket_protocol_code, hex_mode_code, socket_control_param_code,
  message_indication_type_code, message_waiting_mode_code, resolution_type_code,
}

pub data Enum : Type 0 where
  operator_selection_mode rat_act network_registration_urc_config : Enum
  network_registration_stat rat_preferred first_radio_access_technology : Enum
  second_radio_access_technology third_radio_access_technology pdp_context_status : Enum
  packet_switched_param_req protocol_type authentication_type data_compression : Enum
  header_compression qos_precedence qos_delay qos_reliability : Enum
  packet_switched_action packet_switched_network_data_param gprs_attached_state : Enum
  gprs_network_registration_urc_config ps_event_reporting_mode : Enum
  gprs_network_registration_stat extended_ps_network_registration_urc_config : Enum
  extended_ps_network_registration_state eps_network_registration_urc_config : Enum
  eps_network_registration_stat functionality reset_mode automatic_timezone : Enum
  termination_error_mode power_mode stk_mode : Enum
  report_mobile_termination_error_status circuit109_behaviour circuit108_behaviour : Enum
  flow_control software_flow_control baud_rate gpio_out_value gpio_in_pull : Enum
  security_operation security_data_type pinning_level certificate_validation_level : Enum
  snt power_saving_mode fs_factory_restore_type nvm_factory_restore_type : Enum
  socket_protocol hex_mode socket_control_param message_indication_type : Enum
  message_waiting_mode resolution_type : Enum

abbrev pub Variant : Enum → Type 0
Variant Enum.operator_selection_mode = OperatorSelectionMode
Variant Enum.rat_act = RatAct
Variant Enum.network_registration_urc_config = NetworkRegistrationUrcConfig
Variant Enum.network_registration_stat = NetworkRegistrationStat
Variant Enum.rat_preferred = RatPreferred
Variant Enum.first_radio_access_technology = FirstRadioAccessTechnology
Variant Enum.second_radio_access_technology = SecondRadioAccessTechnology
Variant Enum.third_radio_access_technology = ThirdRadioAccessTechnology
Variant Enum.pdp_context_status = PdpContextStatus
Variant Enum.packet_switched_param_req = PacketSwitchedParamReq
Variant Enum.protocol_type = ProtocolType
Variant Enum.authentication_type = AuthenticationType
Variant Enum.data_compression = DataCompression
Variant Enum.header_compression = HeaderCompression
Variant Enum.qos_precedence = QosPrecedence
Variant Enum.qos_delay = QosDelay
Variant Enum.qos_reliability = QosReliability
Variant Enum.packet_switched_action = PacketSwitchedAction
Variant Enum.packet_switched_network_data_param = PacketSwitchedNetworkDataParam
Variant Enum.gprs_attached_state = GprsAttachedState
Variant Enum.gprs_network_registration_urc_config = GprsNetworkRegistrationUrcConfig
Variant Enum.ps_event_reporting_mode = PsEventReportingMode
Variant Enum.gprs_network_registration_stat = GprsNetworkRegistrationStat
Variant Enum.extended_ps_network_registration_urc_config = ExtendedPsNetworkRegistrationUrcConfig
Variant Enum.extended_ps_network_registration_state = ExtendedPsNetworkRegistrationState
Variant Enum.eps_network_registration_urc_config = EpsNetworkRegistrationUrcConfig
Variant Enum.eps_network_registration_stat = EpsNetworkRegistrationStat
Variant Enum.functionality = Functionality
Variant Enum.reset_mode = ResetMode
Variant Enum.automatic_timezone = AutomaticTimezone
Variant Enum.termination_error_mode = TerminationErrorMode
Variant Enum.power_mode = PowerMode
Variant Enum.stk_mode = StkMode
Variant Enum.report_mobile_termination_error_status = ReportMobileTerminationErrorStatus
Variant Enum.circuit109_behaviour = Circuit109Behaviour
Variant Enum.circuit108_behaviour = Circuit108Behaviour
Variant Enum.flow_control = FlowControl
Variant Enum.software_flow_control = SoftwareFlowControl
Variant Enum.baud_rate = BaudRate
Variant Enum.gpio_out_value = GpioOutValue
Variant Enum.gpio_in_pull = GpioInPull
Variant Enum.security_operation = SecurityOperation
Variant Enum.security_data_type = SecurityDataType
Variant Enum.pinning_level = PinningLevel
Variant Enum.certificate_validation_level = CertificateValidationLevel
Variant Enum.snt = Snt
Variant Enum.power_saving_mode = PowerSavingMode
Variant Enum.fs_factory_restore_type = FsFactoryRestoreType
Variant Enum.nvm_factory_restore_type = NvmFactoryRestoreType
Variant Enum.socket_protocol = SocketProtocol
Variant Enum.hex_mode = HexMode
Variant Enum.socket_control_param = SocketControlParam
Variant Enum.message_indication_type = MessageIndicationType
Variant Enum.message_waiting_mode = MessageWaitingMode
Variant Enum.resolution_type = ResolutionType

-- `v as u8`, or `v as u32`.
unfoldable pub code : (e : Enum) → Variant e → ℕ
code Enum.operator_selection_mode x = operator_selection_mode_code x
code Enum.rat_act x = rat_act_code x
code Enum.network_registration_urc_config x = network_registration_urc_config_code x
code Enum.network_registration_stat x = network_stat_code x
code Enum.rat_preferred x = rat_preferred_code x
code Enum.first_radio_access_technology x = first_radio_access_technology_code x
code Enum.second_radio_access_technology x = second_radio_access_technology_code x
code Enum.third_radio_access_technology x = third_radio_access_technology_code x
code Enum.pdp_context_status x = pdp_context_status_code x
code Enum.packet_switched_param_req x = packet_switched_param_req_code x
code Enum.protocol_type x = protocol_type_code x
code Enum.authentication_type x = authentication_type_code x
code Enum.data_compression x = data_compression_code x
code Enum.header_compression x = header_compression_code x
code Enum.qos_precedence x = qos_precedence_code x
code Enum.qos_delay x = qos_delay_code x
code Enum.qos_reliability x = qos_reliability_code x
code Enum.packet_switched_action x = packet_switched_action_code x
code Enum.packet_switched_network_data_param x = packet_switched_network_data_param_code x
code Enum.gprs_attached_state x = gprs_attached_state_code x
code Enum.gprs_network_registration_urc_config x = gprs_network_registration_urc_config_code x
code Enum.ps_event_reporting_mode x = ps_event_reporting_mode_code x
code Enum.gprs_network_registration_stat x = gprs_stat_code x
code Enum.extended_ps_network_registration_urc_config x =
    extended_ps_network_registration_urc_config_code x
code Enum.extended_ps_network_registration_state x = extended_ps_network_registration_state_code x
code Enum.eps_network_registration_urc_config x = eps_network_registration_urc_config_code x
code Enum.eps_network_registration_stat x = eps_stat_code x
code Enum.functionality x = functionality_code x
code Enum.reset_mode x = reset_mode_code x
code Enum.automatic_timezone x = automatic_timezone_code x
code Enum.termination_error_mode x = termination_error_mode_code x
code Enum.power_mode x = power_mode_code x
code Enum.stk_mode x = stk_mode_code x
code Enum.report_mobile_termination_error_status x = report_mobile_termination_error_status_code x
code Enum.circuit109_behaviour x = circuit109_behaviour_code x
code Enum.circuit108_behaviour x = circuit108_behaviour_code x
code Enum.flow_control x = flow_control_code x
code Enum.software_flow_control x = software_flow_control_code x
code Enum.baud_rate x = baud_rate_code x
code Enum.gpio_out_value x = gpio_out_value_code x
code Enum.gpio_in_pull x = gpio_in_pull_code x
code Enum.security_operation x = security_operation_code x
code Enum.security_data_type x = security_data_type_code x
code Enum.pinning_level x = pinning_level_code x
code Enum.certificate_validation_level x = certificate_validation_level_code x
code Enum.snt x = snt_code x
code Enum.power_saving_mode x = power_saving_mode_code x
code Enum.fs_factory_restore_type x = fs_factory_restore_type_code x
code Enum.nvm_factory_restore_type x = nvm_factory_restore_type_code x
code Enum.socket_protocol x = socket_protocol_code x
code Enum.hex_mode x = hex_mode_code x
code Enum.socket_control_param x = socket_control_param_code x
code Enum.message_indication_type x = message_indication_type_code x
code Enum.message_waiting_mode x = message_waiting_mode_code x
code Enum.resolution_type x = resolution_type_code x

-- The bits of the integer type: that of `at_enum`, or else a byte.
unfoldable pub width : Enum → ℕ
width Enum.baud_rate = 32
width _ = 8
