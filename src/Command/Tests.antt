-- ===== src/Command/Tests.antt =====
-- The theorem on the tags of a profile's parameters at a single one.
use fibocom_cellular_rs.Prelude.{◌≡◌, ◌↔◌}
use fibocom_cellular_rs.Command.Types.{
  PacketSwitchedParam, PacketSwitchedParamReq, packet_switched_param_tag,
  packet_switched_param_req_code,
}
use fibocom_cellular_rs.Command.Profile.{request, request_iff}

request_iff_example :
    (packet_switched_param_tag (PacketSwitchedParam.map_profile 1)
      ≡ packet_switched_param_req_code PacketSwitchedParamReq.map_profile)
    ↔ (request (PacketSwitchedParam.map_profile 1) ≡ PacketSwitchedParamReq.map_profile)
request_iff_example =
    request_iff (PacketSwitchedParam.map_profile 1) PacketSwitchedParamReq.map_profile
