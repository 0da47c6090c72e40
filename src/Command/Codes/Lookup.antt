-- ===== src/Command/Codes/Lookup.antt =====
-- ublox-cellular/src/command: each variant of an enum is found by its number among the variants.
use fibocom_cellular_rs.Prelude.{
  ℕ, ◌≡◌, refl, Option, none, some, List, [], ◌∷◌, ◌==◌, if◌then◌else◌,
}
use fibocom_cellular_rs.Command.Types.{
  AuthenticationType, AutomaticTimezone, BaudRate, CertificateValidationLevel, Circuit108Behaviour,
  Circuit109Behaviour, DataCompression, EpsNetworkRegistrationStat, EpsNetworkRegistrationUrcConfig,
  ExtendedPsNetworkRegistrationState, ExtendedPsNetworkRegistrationUrcConfig,
  FirstRadioAccessTechnology, FlowControl, FsFactoryRestoreType, Functionality, GpioInPull,
  GpioOutValue, GprsAttachedState, GprsNetworkRegistrationStat, GprsNetworkRegistrationUrcConfig,
  HeaderCompression, HexMode, MessageIndicationType, MessageWaitingMode, NetworkRegistrationStat,
  NetworkRegistrationUrcConfig, NvmFactoryRestoreType, OperatorSelectionMode, PacketSwitchedAction,
  PacketSwitchedNetworkDataParam, PacketSwitchedParamReq, PdpContextStatus, PinningLevel, PowerMode,
  PowerSavingMode, ProtocolType, PsEventReportingMode, QosDelay, QosPrecedence, QosReliability,
  RatAct, RatPreferred, ReportMobileTerminationErrorStatus, ResetMode, ResolutionType,
  SecondRadioAccessTechnology, SecurityDataType, SecurityOperation, Snt, SocketControlParam,
  SocketProtocol, SoftwareFlowControl, StkMode, TerminationErrorMode, ThirdRadioAccessTechnology,
}
use fibocom_cellular_rs.Command.Types.{
  operator_selection_mode_code, rat_act_code, network_registration_urc_config_code,
  network_stat_code, rat_preferred_code, first_radio_access_technology_code,
  second_radio_access_technology_code, third_radio_access_technology_code, pdp_context_status_code,
  packet_switched_param_req_code, protocol_type_code, authentication_type_code,
  data_compression_code, header_compression_code, qos_precedence_code, qos_delay_code,
  qos_reliability_code, packet_switched_action_code, packet_switched_network_data_param_code,
  gprs_attached_state_code, gprs_network_registration_urc_config_code, ps_event_reporting_mode_code,
  gprs_stat_code, extended_ps_network_registration_urc_config_code,
  extended_ps_network_registration_state_code, eps_network_registration_urc_config_code,
  eps_stat_code, functionality_code, reset_mode_code, automatic_timezone_code,
  termination_error_mode_code, power_mode_code, stk_mode_code,
  report_mobile_termination_error_status_code, circuit109_behaviour_code, circuit108_behaviour_code,
  flow_control_code, software_flow_control_code, baud_rate_code, gpio_out_value_code,
  gpio_in_pull_code, security_operation_code, security_data_type_code, pinning_level_code,
  certificate_validation_level_code, snt_code, power_saving_mode_code, fs_factory_restore_type_code,
  nvm_factory_restore_type_code, socket_protocol_code, hex_mode_code, socket_control_param_code,
  message_indication_type_code, message_waiting_mode_code, resolution_type_code,
}
use fibocom_cellular_rs.Command.Codes.{Enum, Variant, code}
use fibocom_cellular_rs.Command.Codes.Variants.{variants}

-- The first element with a number.
unfoldable pub find_code : {A : Type 0} → (A → ℕ) → ℕ → List A → Option A
find_code f n [] = none
find_code f n (x ∷ xs) = if f x == n then some x else find_code f n xs

pub find_code-code :
    (e : Enum) (x : Variant e) → find_code (code e) (code e x) (variants e) ≡ some x
unfolding find_code code variants operator_selection_mode_code rat_act_code
    network_registration_urc_config_code network_stat_code rat_preferred_code
    first_radio_access_technology_code second_radio_access_technology_code
    third_radio_access_technology_code pdp_context_status_code packet_switched_param_req_code
    protocol_type_code authentication_type_code data_compression_code header_compression_code
    qos_precedence_code qos_delay_code qos_reliability_code packet_switched_action_code
    packet_switched_network_data_param_code gprs_attached_state_code
    gprs_network_registration_urc_config_code ps_event_reporting_mode_code gprs_stat_code
    extended_ps_network_registration_urc_config_code extended_ps_network_registration_state_code
    eps_network_registration_urc_config_code eps_stat_code functionality_code reset_mode_code
    automatic_timezone_code termination_error_mode_code power_mode_code stk_mode_code
    report_mobile_termination_error_status_code circuit109_behaviour_code circuit108_behaviour_code
    flow_control_code software_flow_control_code baud_rate_code gpio_out_value_code
    gpio_in_pull_code security_operation_code security_data_type_code pinning_level_code
    certificate_validation_level_code snt_code power_saving_mode_code fs_factory_restore_type_code
    nvm_factory_restore_type_code socket_protocol_code hex_mode_code socket_control_param_code
    message_indication_type_code message_waiting_mode_code resolution_type_code
find_code-code Enum.operator_selection_mode OperatorSelectionMode.automatic = refl
find_code-code Enum.operator_selection_mode _ = refl
find_code-code Enum.rat_act RatAct.gsm = refl
find_code-code Enum.rat_act _ = refl
find_code-code Enum.network_registration_urc_config NetworkRegistrationUrcConfig.urc_disabled = refl
find_code-code Enum.network_registration_urc_config _ = refl
find_code-code Enum.network_registration_stat NetworkRegistrationStat.not_registered = refl
find_code-code Enum.network_registration_stat _ = refl
find_code-code Enum.rat_preferred RatPreferred.gsm_gprs_egprs = refl
find_code-code Enum.rat_preferred _ = refl
find_code-code Enum.first_radio_access_technology FirstRadioAccessTechnology.gsm_gprs_egprs = refl
find_code-code Enum.first_radio_access_technology _ = refl
find_code-code Enum.second_radio_access_technology SecondRadioAccessTechnology.umts = refl
find_code-code Enum.third_radio_access_technology ThirdRadioAccessTechnology.gsm_gprs_egprs = refl
find_code-code Enum.pdp_context_status PdpContextStatus.deactivated = refl
find_code-code Enum.pdp_context_status _ = refl
find_code-code Enum.packet_switched_param_req PacketSwitchedParamReq.protocol_type = refl
find_code-code Enum.packet_switched_param_req _ = refl
find_code-code Enum.protocol_type ProtocolType.ipv4 = refl
find_code-code Enum.protocol_type _ = refl
find_code-code Enum.authentication_type AuthenticationType.none = refl
find_code-code Enum.authentication_type _ = refl
find_code-code Enum.data_compression DataCompression.off = refl
find_code-code Enum.data_compression _ = refl
find_code-code Enum.header_compression HeaderCompression.off = refl
find_code-code Enum.header_compression _ = refl
find_code-code Enum.qos_precedence QosPrecedence.subscribed = refl
find_code-code Enum.qos_precedence _ = refl
find_code-code Enum.qos_delay QosDelay.subscribed = refl
find_code-code Enum.qos_delay _ = refl
find_code-code Enum.qos_reliability QosReliability.subscribed = refl
find_code-code Enum.qos_reliability _ = refl
find_code-code Enum.packet_switched_action PacketSwitchedAction.reset = refl
find_code-code Enum.packet_switched_action _ = refl
find_code-code Enum.packet_switched_network_data_param PacketSwitchedNetworkDataParam.ip_address =
    refl
find_code-code Enum.packet_switched_network_data_param _ = refl
find_code-code Enum.gprs_attached_state GprsAttachedState.detached = refl
find_code-code Enum.gprs_attached_state _ = refl
find_code-code Enum.gprs_network_registration_urc_config
      GprsNetworkRegistrationUrcConfig.urc_disabled =
    refl
find_code-code Enum.gprs_network_registration_urc_config _ = refl
find_code-code Enum.ps_event_reporting_mode PsEventReportingMode.circular_buffer_urcs = refl
find_code-code Enum.ps_event_reporting_mode _ = refl
find_code-code Enum.gprs_network_registration_stat GprsNetworkRegistrationStat.not_registered = refl
find_code-code Enum.gprs_network_registration_stat _ = refl
find_code-code Enum.extended_ps_network_registration_urc_config
      ExtendedPsNetworkRegistrationUrcConfig.urc_disabled =
    refl
find_code-code Enum.extended_ps_network_registration_urc_config _ = refl
find_code-code Enum.extended_ps_network_registration_state
      ExtendedPsNetworkRegistrationState.not_registered =
    refl
find_code-code Enum.extended_ps_network_registration_state _ = refl
find_code-code Enum.eps_network_registration_urc_config
      EpsNetworkRegistrationUrcConfig.urc_disabled =
    refl
find_code-code Enum.eps_network_registration_urc_config _ = refl
find_code-code Enum.eps_network_registration_stat EpsNetworkRegistrationStat.not_registered = refl
find_code-code Enum.eps_network_registration_stat _ = refl
find_code-code Enum.functionality Functionality.minimum = refl
find_code-code Enum.functionality _ = refl
find_code-code Enum.reset_mode ResetMode.dont_reset = refl
find_code-code Enum.reset_mode _ = refl
find_code-code Enum.automatic_timezone AutomaticTimezone.disabled = refl
find_code-code Enum.automatic_timezone _ = refl
find_code-code Enum.termination_error_mode TerminationErrorMode.disabled = refl
find_code-code Enum.termination_error_mode _ = refl
find_code-code Enum.power_mode PowerMode.minimum = refl
find_code-code Enum.power_mode _ = refl
find_code-code Enum.stk_mode StkMode.dedicated_mode = refl
find_code-code Enum.stk_mode _ = refl
find_code-code Enum.report_mobile_termination_error_status
      ReportMobileTerminationErrorStatus.disabled_error_used =
    refl
find_code-code Enum.report_mobile_termination_error_status _ = refl
find_code-code Enum.circuit109_behaviour Circuit109Behaviour.always_present = refl
find_code-code Enum.circuit109_behaviour _ = refl
find_code-code Enum.circuit108_behaviour Circuit108Behaviour.ignore = refl
find_code-code Enum.circuit108_behaviour _ = refl
find_code-code Enum.flow_control FlowControl.disabled = refl
find_code-code Enum.flow_control _ = refl
find_code-code Enum.software_flow_control SoftwareFlowControl.none = refl
find_code-code Enum.software_flow_control _ = refl
find_code-code Enum.baud_rate BaudRate.b0 = refl
find_code-code Enum.baud_rate _ = refl
find_code-code Enum.gpio_out_value GpioOutValue.low = refl
find_code-code Enum.gpio_out_value _ = refl
find_code-code Enum.gpio_in_pull GpioInPull.no_pull = refl
find_code-code Enum.gpio_in_pull _ = refl
find_code-code Enum.security_operation SecurityOperation.import_stream = refl
find_code-code Enum.security_operation _ = refl
find_code-code Enum.security_data_type SecurityDataType.trusted_root_ca = refl
find_code-code Enum.security_data_type _ = refl
find_code-code Enum.pinning_level PinningLevel.level0 = refl
find_code-code Enum.pinning_level _ = refl
find_code-code Enum.certificate_validation_level CertificateValidationLevel.no_validation = refl
find_code-code Enum.certificate_validation_level _ = refl
find_code-code Enum.snt Snt.imei = refl
find_code-code Enum.snt _ = refl
find_code-code Enum.power_saving_mode PowerSavingMode.disabled = refl
find_code-code Enum.power_saving_mode _ = refl
find_code-code Enum.fs_factory_restore_type FsFactoryRestoreType.no_restore = refl
find_code-code Enum.fs_factory_restore_type _ = refl
find_code-code Enum.nvm_factory_restore_type NvmFactoryRestoreType.no_restore = refl
find_code-code Enum.nvm_factory_restore_type _ = refl
find_code-code Enum.socket_protocol SocketProtocol.tcp = refl
find_code-code Enum.socket_protocol _ = refl
find_code-code Enum.hex_mode HexMode.disabled = refl
find_code-code Enum.hex_mode _ = refl
find_code-code Enum.socket_control_param SocketControlParam.socket_type = refl
find_code-code Enum.socket_control_param _ = refl
find_code-code Enum.message_indication_type MessageIndicationType.voice_message = refl
find_code-code Enum.message_indication_type _ = refl
find_code-code Enum.message_waiting_mode MessageWaitingMode.disabled = refl
find_code-code Enum.message_waiting_mode _ = refl
find_code-code Enum.resolution_type ResolutionType.domain_name_to_ip = refl
find_code-code Enum.resolution_type _ = refl
