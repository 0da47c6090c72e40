-- ===== src/Command/Types/Psn.antt =====
-- ublox-cellular/src/command/psn/types.rs: the enums on PDP contexts and packet switched profiles.
-- `..._code` is the number of a variant, and `..._tag` that of a variant with fields.
use fibocom_cellular_rs.Prelude.{ℕ}
use fibocom_cellular_rs.Command.Types.Text.{Bytes}

pub data PdpContextStatus : Type 0 where
  deactivated activated : PdpContextStatus

unfoldable pub pdp_context_status_code : PdpContextStatus → ℕ
pdp_context_status_code PdpContextStatus.deactivated = 0
pdp_context_status_code PdpContextStatus.activated = 1

pub data PacketSwitchedParamReq : Type 0 where
  protocol_type apn username password dns1 dns2 authentication : PacketSwitchedParamReq
  ip_address data_compression header_compression qos_precedence : PacketSwitchedParamReq
  qos_delay qos_reliability unused map_profile : PacketSwitchedParamReq

unfoldable pub packet_switched_param_req_code : PacketSwitchedParamReq → ℕ
packet_switched_param_req_code PacketSwitchedParamReq.protocol_type = 0
packet_switched_param_req_code PacketSwitchedParamReq.apn = 1
packet_switched_param_req_code PacketSwitchedParamReq.username = 2
packet_switched_param_req_code PacketSwitchedParamReq.password = 3
packet_switched_param_req_code PacketSwitchedParamReq.dns1 = 4
packet_switched_param_req_code PacketSwitchedParamReq.dns2 = 5
packet_switched_param_req_code PacketSwitchedParamReq.authentication = 6
packet_switched_param_req_code PacketSwitchedParamReq.ip_address = 7
packet_switched_param_req_code PacketSwitchedParamReq.data_compression = 8
packet_switched_param_req_code PacketSwitchedParamReq.header_compression = 9
packet_switched_param_req_code PacketSwitchedParamReq.qos_precedence = 10
packet_switched_param_req_code PacketSwitchedParamReq.qos_delay = 11
packet_switched_param_req_code PacketSwitchedParamReq.qos_reliability = 12
packet_switched_param_req_code PacketSwitchedParamReq.unused = 255
packet_switched_param_req_code PacketSwitchedParamReq.map_profile = 100

pub data ProtocolType : Type 0 where
  ipv4 ipv6 ipv4v6_prefer_v4_internal ipv4v6_prefer_v6_internal : ProtocolType

unfoldable pub protocol_type_code : ProtocolType → ℕ
protocol_type_code ProtocolType.ipv4 = 0
protocol_type_code ProtocolType.ipv6 = 1
protocol_type_code ProtocolType.ipv4v6_prefer_v4_internal = 2
protocol_type_code ProtocolType.ipv4v6_prefer_v6_internal = 3

pub data AuthenticationType : Type 0 where
  none pap chap auto : AuthenticationType

unfoldable pub authentication_type_code : AuthenticationType → ℕ
authentication_type_code AuthenticationType.none = 0
authentication_type_code AuthenticationType.pap = 1
authentication_type_code AuthenticationType.chap = 2
authentication_type_code AuthenticationType.auto = 3

pub data DataCompression : Type 0 where
  off predefined v42_bits : DataCompression

unfoldable pub data_compression_code : DataCompression → ℕ
data_compression_code DataCompression.off = 0
data_compression_code DataCompression.predefined = 1
data_compression_code DataCompression.v42_bits = 2

pub data HeaderCompression : Type 0 where
  off predefined rfc1144 rfc2507 rfc3095 : HeaderCompression

unfoldable pub header_compression_code : HeaderCompression → ℕ
header_compression_code HeaderCompression.off = 0
header_compression_code HeaderCompression.predefined = 1
header_compression_code HeaderCompression.rfc1144 = 2
header_compression_code HeaderCompression.rfc2507 = 3
header_compression_code HeaderCompression.rfc3095 = 4

pub data QosPrecedence : Type 0 where
  subscribed high normal low : QosPrecedence

unfoldable pub qos_precedence_code : QosPrecedence → ℕ
qos_precedence_code QosPrecedence.subscribed = 0
qos_precedence_code QosPrecedence.high = 1
qos_precedence_code QosPrecedence.normal = 2
qos_precedence_code QosPrecedence.low = 3

pub data QosDelay : Type 0 where
  subscribed class1 class2 class3 best_effort : QosDelay

unfoldable pub qos_delay_code : QosDelay → ℕ
qos_delay_code QosDelay.subscribed = 0
qos_delay_code QosDelay.class1 = 1
qos_delay_code QosDelay.class2 = 2
qos_delay_code QosDelay.class3 = 3
qos_delay_code QosDelay.best_effort = 4

pub data QosReliability : Type 0 where
  subscribed class1 class2 class3 class4 class5 class6 : QosReliability

unfoldable pub qos_reliability_code : QosReliability → ℕ
qos_reliability_code QosReliability.subscribed = 0
qos_reliability_code QosReliability.class1 = 1
qos_reliability_code QosReliability.class2 = 2
qos_reliability_code QosReliability.class3 = 3
qos_reliability_code QosReliability.class4 = 4
qos_reliability_code QosReliability.class5 = 5
qos_reliability_code QosReliability.class6 = 6

pub data PacketSwitchedParam : Type 0 where
  protocol_type : ProtocolType → PacketSwitchedParam
  apn : Bytes → PacketSwitchedParam
  username : Bytes → PacketSwitchedParam
  password : Bytes → PacketSwitchedParam
  dns1 : Bytes → PacketSwitchedParam
  dns2 : Bytes → PacketSwitchedParam
  authentication : AuthenticationType → PacketSwitchedParam
  ip_address : Bytes → PacketSwitchedParam
  data_compression : DataCompression → PacketSwitchedParam
  header_compression : HeaderCompression → PacketSwitchedParam
  qos_precedence : QosPrecedence → PacketSwitchedParam
  qos_delay : QosDelay → PacketSwitchedParam
  qos_reliability : QosReliability → PacketSwitchedParam
  unused : PacketSwitchedParam
  map_profile : ℕ → PacketSwitchedParam

unfoldable pub packet_switched_param_tag : PacketSwitchedParam → ℕ
packet_switched_param_tag (PacketSwitchedParam.protocol_type x) = 0
packet_switched_param_tag (PacketSwitchedParam.apn x) = 1
packet_switched_param_tag (PacketSwitchedParam.username x) = 2
packet_switched_param_tag (PacketSwitchedParam.password x) = 3
packet_switched_param_tag (PacketSwitchedParam.dns1 x) = 4
packet_switched_param_tag (PacketSwitchedParam.dns2 x) = 5
packet_switched_param_tag (PacketSwitchedParam.authentication x) = 6
packet_switched_param_tag (PacketSwitchedParam.ip_address x) = 7
packet_switched_param_tag (PacketSwitchedParam.data_compression x) = 8
packet_switched_param_tag (PacketSwitchedParam.header_compression x) = 9
packet_switched_param_tag (PacketSwitchedParam.qos_precedence x) = 10
packet_switched_param_tag (PacketSwitchedParam.qos_delay x) = 11
packet_switched_param_tag (PacketSwitchedParam.qos_reliability x) = 12
packet_switched_param_tag PacketSwitchedParam.unused = 255
packet_switched_param_tag (PacketSwitchedParam.map_profile x) = 100

pub data PacketSwitchedAction : Type 0 where
  reset store load activate deactivate : PacketSwitchedAction

unfoldable pub packet_switched_action_code : PacketSwitchedAction → ℕ
packet_switched_action_code PacketSwitchedAction.reset = 0
packet_switched_action_code PacketSwitchedAction.store = 1
packet_switched_action_code PacketSwitchedAction.load = 2
packet_switched_action_code PacketSwitchedAction.activate = 3
packet_switched_action_code PacketSwitchedAction.deactivate = 4

pub data PacketSwitchedNetworkDataParam : Type 0 where
  ip_address dns1 dns2 qos_precedence qos_delay : PacketSwitchedNetworkDataParam
  qos_reliability qos_peak_rate qos_mean_rate : PacketSwitchedNetworkDataParam
  psd_profile_status qos_3g_delivery_order : PacketSwitchedNetworkDataParam
  qos_3g_transfer_delay : PacketSwitchedNetworkDataParam

unfoldable pub packet_switched_network_data_param_code : PacketSwitchedNetworkDataParam → ℕ
packet_switched_network_data_param_code PacketSwitchedNetworkDataParam.ip_address = 0
packet_switched_network_data_param_code PacketSwitchedNetworkDataParam.dns1 = 1
packet_switched_network_data_param_code PacketSwitchedNetworkDataParam.dns2 = 2
packet_switched_network_data_param_code PacketSwitchedNetworkDataParam.qos_precedence = 3
packet_switched_network_data_param_code PacketSwitchedNetworkDataParam.qos_delay = 4
packet_switched_network_data_param_code PacketSwitchedNetworkDataParam.qos_reliability = 5
packet_switched_network_data_param_code PacketSwitchedNetworkDataParam.qos_peak_rate = 6
packet_switched_network_data_param_code PacketSwitchedNetworkDataParam.qos_mean_rate = 7
packet_switched_network_data_param_code PacketSwitchedNetworkDataParam.psd_profile_status = 8
packet_switched_network_data_param_code PacketSwitchedNetworkDataParam.qos_3g_delivery_order = 9
packet_switched_network_data_param_code PacketSwitchedNetworkDataParam.qos_3g_transfer_delay = 24
