-- ===== src/Command/Profile.antt =====
-- ublox-cellular/src/command/psn/types.rs: the settings of a packet switched profile and the
-- requests that read them.
use fibocom_cellular_rs.Prelude.{◌≡◌, ◌↔◌, refl}
use fibocom_cellular_rs.Command.Types.{
  PacketSwitchedParam, PacketSwitchedParamReq, packet_switched_param_tag,
  packet_switched_param_req_code,
}
use fibocom_cellular_rs.Command.Codes.{Enum, code}
use fibocom_cellular_rs.Command.Codes.Distinct.{code-injective}

-- The request of the same name.
unfoldable pub request : PacketSwitchedParam → PacketSwitchedParamReq
request (PacketSwitchedParam.protocol_type x) = PacketSwitchedParamReq.protocol_type
request (PacketSwitchedParam.apn x) = PacketSwitchedParamReq.apn
request (PacketSwitchedParam.username x) = PacketSwitchedParamReq.username
request (PacketSwitchedParam.password x) = PacketSwitchedParamReq.password
request (PacketSwitchedParam.dns1 x) = PacketSwitchedParamReq.dns1
request (PacketSwitchedParam.dns2 x) = PacketSwitchedParamReq.dns2
request (PacketSwitchedParam.authentication x) = PacketSwitchedParamReq.authentication
request (PacketSwitchedParam.ip_address x) = PacketSwitchedParamReq.ip_address
request (PacketSwitchedParam.data_compression x) = PacketSwitchedParamReq.data_compression
request (PacketSwitchedParam.header_compression x) = PacketSwitchedParamReq.header_compression
request (PacketSwitchedParam.qos_precedence x) = PacketSwitchedParamReq.qos_precedence
request (PacketSwitchedParam.qos_delay x) = PacketSwitchedParamReq.qos_delay
request (PacketSwitchedParam.qos_reliability x) = PacketSwitchedParamReq.qos_reliability
request PacketSwitchedParam.unused = PacketSwitchedParamReq.unused
request (PacketSwitchedParam.map_profile x) = PacketSwitchedParamReq.map_profile

request-code :
    (p : PacketSwitchedParam)
    → packet_switched_param_req_code (request p) ≡ packet_switched_param_tag p
unfolding request packet_switched_param_req_code packet_switched_param_tag
request-code PacketSwitchedParam.unused = refl
request-code _ = refl

-- The number in a request for a setting of a profile is the tag of a setting exactly if the two
-- have the same name: what is read under a request is the setting that it asks for.
pub request_iff :
    (p : PacketSwitchedParam) (r : PacketSwitchedParamReq)
    → (packet_switched_param_tag p ≡ packet_switched_param_req_code r) ↔ (request p ≡ r)
unfolding code
request_iff p r =
    let same = request-code p in
    let apart = (code-injective Enum.packet_switched_param_req (request p) r).1 in
    (λ h. apart cc, λ h. cc)
