-- ===== src/Command/Codes/Variants.antt =====
-- ublox-cellular/src/command: the variants of each enum, in the source's order.
use fibocom_cellular_rs.Prelude.{List, [], ◌∷◌}
use fibocom_cellular_rs.Command.Types.{
  AuthenticationType, AutomaticTimezone, BaudRate, CertificateValidationLevel, Circuit108Behaviour,
  Circuit109Behaviour, DataCompression, EpsNetworkRegistrationStat, EpsNetworkRegistrationUrcConfig,
  ExtendedPsNetworkRegistrationState, ExtendedPsNetworkRegistrationUrcConfig,
  FirstRadioAccessTechnology, FlowControl, FsFactoryRestoreType, Functionality, GpioInPull,
  GpioOutValue, GprsAttachedState, GprsNetworkRegistrationStat, GprsNetworkRegistrationUrcConfig,
  HeaderCompression, HexMode, MessageIndicationType, MessageWaitingMode, NetworkRegistrationStat,
  NetworkRegistrationUrcConfig, NvmFactoryRestoreType, OperatorSelectionMode, PacketSwitchedAction,
  PacketSwitchedNetworkDataParam, PacketSwitchedParamReq, PdpContextStatus, PinningLevel, PowerMode,
  PowerSavingMode, ProtocolType, PsEventReportingMode, QosDelay, QosPrecedence, QosReliability,
  RatAct, RatPreferred, ReportMobileTerminationErrorStatus, ResetMode, ResolutionType,
  SecondRadioAccessTechnology, SecurityDataType, SecurityOperation, Snt, SocketControlParam,
  SocketProtocol, SoftwareFlowControl, StkMode, TerminationErrorMode, ThirdRadioAccessTechnology,
}
use fibocom_cellular_rs.Command.Codes.{Enum, Variant}

unfoldable pub variants : (e : Enum) → List (Variant e)
variants Enum.operator_selection_mode =
    OperatorSelectionMode.automatic ∷ OperatorSelectionMode.manual
    ∷ OperatorSelectionMode.deregister ∷ OperatorSelectionMode.format_only
    ∷ OperatorSelectionMode.manual_automatic ∷ OperatorSelectionMode.extended_network_search
    ∷ OperatorSelectionMode.extended_network_search_without_tags
    ∷ OperatorSelectionMode.network_timing_advance_search ∷ OperatorSelectionMode.unknown ∷ []
variants Enum.rat_act =
    RatAct.gsm ∷ RatAct.gsm_compact ∷ RatAct.utran ∷ RatAct.gsm_gprs_edge ∷ RatAct.utran_hspda
    ∷ RatAct.utran_hsupa ∷ RatAct.utran_hspda_hsupa ∷ RatAct.lte ∷ RatAct.ec_gsm_iot ∷ RatAct.eutran
    ∷ RatAct.unknown ∷ []
variants Enum.network_registration_urc_config =
    NetworkRegistrationUrcConfig.urc_disabled ∷ NetworkRegistrationUrcConfig.urc_enabled
    ∷ NetworkRegistrationUrcConfig.urc_verbose ∷ []
variants Enum.network_registration_stat =
    NetworkRegistrationStat.not_registered ∷ NetworkRegistrationStat.registered
    ∷ NetworkRegistrationStat.not_registered_searching ∷ NetworkRegistrationStat.registration_denied
    ∷ NetworkRegistrationStat.unknown ∷ NetworkRegistrationStat.registered_roaming
    ∷ NetworkRegistrationStat.registered_sms_only
    ∷ NetworkRegistrationStat.registered_sms_only_roaming
    ∷ NetworkRegistrationStat.registered_csfb_not_perferred
    ∷ NetworkRegistrationStat.registered_csfb_not_perferred_roaming ∷ []
variants Enum.rat_preferred =
    RatPreferred.gsm_gprs_egprs ∷ RatPreferred.utran ∷ RatPreferred.lte ∷ []
variants Enum.first_radio_access_technology =
    FirstRadioAccessTechnology.gsm_gprs_egprs ∷ FirstRadioAccessTechnology.umts
    ∷ FirstRadioAccessTechnology.lte ∷ []
variants Enum.second_radio_access_technology = SecondRadioAccessTechnology.umts ∷ []
variants Enum.third_radio_access_technology = ThirdRadioAccessTechnology.gsm_gprs_egprs ∷ []
variants Enum.pdp_context_status = PdpContextStatus.deactivated ∷ PdpContextStatus.activated ∷ []
variants Enum.packet_switched_param_req =
    PacketSwitchedParamReq.protocol_type ∷ PacketSwitchedParamReq.apn
    ∷ PacketSwitchedParamReq.username ∷ PacketSwitchedParamReq.password
    ∷ PacketSwitchedParamReq.dns1 ∷ PacketSwitchedParamReq.dns2
    ∷ PacketSwitchedParamReq.authentication ∷ PacketSwitchedParamReq.ip_address
    ∷ PacketSwitchedParamReq.data_compression ∷ PacketSwitchedParamReq.header_compression
    ∷ PacketSwitchedParamReq.qos_precedence ∷ PacketSwitchedParamReq.qos_delay
    ∷ PacketSwitchedParamReq.qos_reliability ∷ PacketSwitchedParamReq.unused
    ∷ PacketSwitchedParamReq.map_profile ∷ []
variants Enum.protocol_type =
    ProtocolType.ipv4 ∷ ProtocolType.ipv6 ∷ ProtocolType.ipv4v6_prefer_v4_internal
    ∷ ProtocolType.ipv4v6_prefer_v6_internal ∷ []
variants Enum.authentication_type =
    AuthenticationType.none ∷ AuthenticationType.pap ∷ AuthenticationType.chap
    ∷ AuthenticationType.auto ∷ []
variants Enum.data_compression =
    DataCompression.off ∷ DataCompression.predefined ∷ DataCompression.v42_bits ∷ []
variants Enum.header_compression =
    HeaderCompression.off ∷ HeaderCompression.predefined ∷ HeaderCompression.rfc1144
    ∷ HeaderCompression.rfc2507 ∷ HeaderCompression.rfc3095 ∷ []
variants Enum.qos_precedence =
    QosPrecedence.subscribed ∷ QosPrecedence.high ∷ QosPrecedence.normal ∷ QosPrecedence.low ∷ []
variants Enum.qos_delay =
    QosDelay.subscribed ∷ QosDelay.class1 ∷ QosDelay.class2 ∷ QosDelay.class3 ∷ QosDelay.best_effort
    ∷ []
variants Enum.qos_reliability =
    QosReliability.subscribed ∷ QosReliability.class1 ∷ QosReliability.class2
    ∷ QosReliability.class3 ∷ QosReliability.class4 ∷ QosReliability.class5 ∷ QosReliability.class6
    ∷ []
variants Enum.packet_switched_action =
    PacketSwitchedAction.reset ∷ PacketSwitchedAction.store ∷ PacketSwitchedAction.load
    ∷ PacketSwitchedAction.activate ∷ PacketSwitchedAction.deactivate ∷ []
variants Enum.packet_switched_network_data_param =
    PacketSwitchedNetworkDataParam.ip_address ∷ PacketSwitchedNetworkDataParam.dns1
    ∷ PacketSwitchedNetworkDataParam.dns2 ∷ PacketSwitchedNetworkDataParam.qos_precedence
    ∷ PacketSwitchedNetworkDataParam.qos_delay ∷ PacketSwitchedNetworkDataParam.qos_reliability
    ∷ PacketSwitchedNetworkDataParam.qos_peak_rate ∷ PacketSwitchedNetworkDataParam.qos_mean_rate
    ∷ PacketSwitchedNetworkDataParam.psd_profile_status
    ∷ PacketSwitchedNetworkDataParam.qos_3g_delivery_order
    ∷ PacketSwitchedNetworkDataParam.qos_3g_transfer_delay ∷ []
variants Enum.gprs_attached_state = GprsAttachedState.detached ∷ GprsAttachedState.attached ∷ []
variants Enum.gprs_network_registration_urc_config =
    GprsNetworkRegistrationUrcConfig.urc_disabled ∷ GprsNetworkRegistrationUrcConfig.urc_enabled
    ∷ GprsNetworkRegistrationUrcConfig.urc_verbose ∷ []
variants Enum.ps_event_reporting_mode =
    PsEventReportingMode.circular_buffer_urcs ∷ PsEventReportingMode.discard_urcs
    ∷ PsEventReportingMode.buffer_urcs ∷ []
variants Enum.gprs_network_registration_stat =
    GprsNetworkRegistrationStat.not_registered ∷ GprsNetworkRegistrationStat.registered
    ∷ GprsNetworkRegistrationStat.not_registered_searching
    ∷ GprsNetworkRegistrationStat.registration_denied ∷ GprsNetworkRegistrationStat.unknown
    ∷ GprsNetworkRegistrationStat.registered_roaming
    ∷ GprsNetworkRegistrationStat.attached_emergency_only ∷ []
variants Enum.extended_ps_network_registration_urc_config =
    ExtendedPsNetworkRegistrationUrcConfig.urc_disabled
    ∷ ExtendedPsNetworkRegistrationUrcConfig.urc_enabled ∷ []
variants Enum.extended_ps_network_registration_state =
    ExtendedPsNetworkRegistrationState.not_registered
    ∷ ExtendedPsNetworkRegistrationState.registered_2g_gprs
    ∷ ExtendedPsNetworkRegistrationState.registered_2g_edge
    ∷ ExtendedPsNetworkRegistrationState.registered_3g_wcdma
    ∷ ExtendedPsNetworkRegistrationState.registered_3g_hsdpa
    ∷ ExtendedPsNetworkRegistrationState.registered_3g_hsupa
    ∷ ExtendedPsNetworkRegistrationState.registered_3g_hspda_hsupa
    ∷ ExtendedPsNetworkRegistrationState.registered_4g
    ∷ ExtendedPsNetworkRegistrationState.registered_2g_gprs_dtm
    ∷ ExtendedPsNetworkRegistrationState.registered_2g_edge_dtm ∷ []
variants Enum.eps_network_registration_urc_config =
    EpsNetworkRegistrationUrcConfig.urc_disabled ∷ EpsNetworkRegistrationUrcConfig.urc_enabled
    ∷ EpsNetworkRegistrationUrcConfig.urc_verbose ∷ []
variants Enum.eps_network_registration_stat =
    EpsNetworkRegistrationStat.not_registered ∷ EpsNetworkRegistrationStat.registered
    ∷ EpsNetworkRegistrationStat.not_registered_searching
    ∷ EpsNetworkRegistrationStat.registration_denied ∷ EpsNetworkRegistrationStat.unknown
    ∷ EpsNetworkRegistrationStat.registered_roaming
    ∷ EpsNetworkRegistrationStat.attached_emergency_only ∷ []
variants Enum.functionality =
    Functionality.minimum ∷ Functionality.full ∷ Functionality.airplane_mode
    ∷ Functionality.dedicated_mode ∷ Functionality.disable_sim_toolkit
    ∷ Functionality.disable_sim_toolkit_ ∷ Functionality.raw_mode ∷ Functionality.silent_reset
    ∷ Functionality.silent_reset_with_sim_reset ∷ Functionality.minimum_without_sim
    ∷ Functionality.halt ∷ []
variants Enum.reset_mode = ResetMode.dont_reset ∷ ResetMode.reset ∷ []
variants Enum.automatic_timezone =
    AutomaticTimezone.disabled ∷ AutomaticTimezone.enabled_local ∷ AutomaticTimezone.enabled_gmt
    ∷ []
variants Enum.termination_error_mode =
    TerminationErrorMode.disabled ∷ TerminationErrorMode.enabled ∷ TerminationErrorMode.verbose ∷ []
variants Enum.power_mode =
    PowerMode.minimum ∷ PowerMode.on ∷ PowerMode.airplane_mode ∷ PowerMode.test_mode
    ∷ PowerMode.minimum_without_sim ∷ []
variants Enum.stk_mode = StkMode.dedicated_mode ∷ StkMode.disabled ∷ StkMode.raw_mode ∷ []
variants Enum.report_mobile_termination_error_status =
    ReportMobileTerminationErrorStatus.disabled_error_used
    ∷ ReportMobileTerminationErrorStatus.enabled_code_used
    ∷ ReportMobileTerminationErrorStatus.enabled_verbose ∷ []
variants Enum.circuit109_behaviour =
    Circuit109Behaviour.always_present ∷ Circuit109Behaviour.changes_with_carrier ∷ []
variants Enum.circuit108_behaviour =
    Circuit108Behaviour.ignore ∷ Circuit108Behaviour.online_command_state
    ∷ Circuit108Behaviour.orderly_cleardown ∷ []
variants Enum.flow_control = FlowControl.disabled ∷ FlowControl.rts_cts ∷ FlowControl.xon_xoff ∷ []
variants Enum.software_flow_control =
    SoftwareFlowControl.none ∷ SoftwareFlowControl.circuit_103_104
    ∷ SoftwareFlowControl.circuit_105_106 ∷ []
variants Enum.baud_rate =
    BaudRate.b0 ∷ BaudRate.b1200 ∷ BaudRate.b2400 ∷ BaudRate.b4800 ∷ BaudRate.b9600
    ∷ BaudRate.b19200 ∷ BaudRate.b38400 ∷ BaudRate.b57600 ∷ BaudRate.b115200 ∷ BaudRate.b230400
    ∷ BaudRate.b460800 ∷ BaudRate.b921600 ∷ BaudRate.b3000000 ∷ BaudRate.b3250000
    ∷ BaudRate.b6000000 ∷ BaudRate.b6500000 ∷ []
variants Enum.gpio_out_value = GpioOutValue.low ∷ GpioOutValue.high ∷ []
variants Enum.gpio_in_pull = GpioInPull.no_pull ∷ GpioInPull.pull_up ∷ GpioInPull.pull_down ∷ []
variants Enum.security_operation =
    SecurityOperation.import_stream ∷ SecurityOperation.import_fs ∷ SecurityOperation.remove
    ∷ SecurityOperation.list ∷ SecurityOperation.retrieve_md5 ∷ []
variants Enum.security_data_type =
    SecurityDataType.trusted_root_ca ∷ SecurityDataType.client_certificate
    ∷ SecurityDataType.client_private_key ∷ SecurityDataType.rfu
    ∷ SecurityDataType.signature_verification_certificate
    ∷ SecurityDataType.signature_verification_public_key ∷ []
variants Enum.pinning_level = PinningLevel.level0 ∷ PinningLevel.level1 ∷ PinningLevel.level2 ∷ []
variants Enum.certificate_validation_level =
    CertificateValidationLevel.no_validation
    ∷ CertificateValidationLevel.root_cert_validation_without_integrity
    ∷ CertificateValidationLevel.root_cert_validation_with_integrity
    ∷ CertificateValidationLevel.root_cert_validation_with_validity_date ∷ []
variants Enum.snt = Snt.imei ∷ Snt.imeisv ∷ Snt.svn ∷ Snt.imei_extended ∷ []
variants Enum.power_saving_mode =
    PowerSavingMode.disabled ∷ PowerSavingMode.enabled ∷ PowerSavingMode.ctrl_by_rts
    ∷ PowerSavingMode.ctrl_by_dtr ∷ []
variants Enum.fs_factory_restore_type =
    FsFactoryRestoreType.no_restore ∷ FsFactoryRestoreType.fs_flash_sectors
    ∷ FsFactoryRestoreType.all_files ∷ []
variants Enum.nvm_factory_restore_type =
    NvmFactoryRestoreType.no_restore ∷ NvmFactoryRestoreType.nvm_flash_sectors
    ∷ NvmFactoryRestoreType.internal_use_only ∷ []
variants Enum.socket_protocol = SocketProtocol.tcp ∷ SocketProtocol.udp ∷ []
variants Enum.hex_mode = HexMode.disabled ∷ HexMode.enabled ∷ []
variants Enum.socket_control_param =
    SocketControlParam.socket_type ∷ SocketControlParam.last_socket_error
    ∷ SocketControlParam.bytes_sent ∷ SocketControlParam.bytes_received
    ∷ SocketControlParam.remote_peer_socket_addr ∷ SocketControlParam.socket_status
    ∷ SocketControlParam.outgoing_unack_data ∷ []
variants Enum.message_indication_type =
    MessageIndicationType.voice_message ∷ MessageIndicationType.fax_message
    ∷ MessageIndicationType.email_message ∷ MessageIndicationType.extended_message
    ∷ MessageIndicationType.video_message ∷ MessageIndicationType.voice_message_line2
    ∷ MessageIndicationType.reserved ∷ []
variants Enum.message_waiting_mode = MessageWaitingMode.disabled ∷ MessageWaitingMode.enabled ∷ []
variants Enum.resolution_type =
    ResolutionType.domain_name_to_ip ∷ ResolutionType.ip_to_domain_name ∷ []
