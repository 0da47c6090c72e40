-- ===== src/Command/Limits.antt =====
-- ublox-cellular/src/command: what the command structs say of the time that they may take. The
-- time of a struct that says nothing is the derive macro's.
use fibocom_cellular_rs.Prelude.{ℕ, Bool, true, false}
use fibocom_cellular_rs.Command.Request.{
  Command, MobileControl, NetworkService, Psn, IpTransportLayer, DeviceDataSecurity,
}

-- `timeout_ms`
unfoldable pub timeout_ms : (default_ms : ℕ) → Command → ℕ
timeout_ms d (Command.mobile_control MobileControl.module_switch_off) = 40000
timeout_ms d (Command.mobile_control (MobileControl.set_module_functionality f r)) = 180000
timeout_ms d (Command.mobile_control MobileControl.get_module_functionality) = 8000
timeout_ms d (Command.network_service (NetworkService.set_operator_selection m f)) = 180000
timeout_ms d (Command.network_service NetworkService.get_operator_selection) = 180000
timeout_ms d (Command.psn (Psn.set_packet_switched_action p a)) = 180000
timeout_ms d (Command.psn (Psn.set_gprs_attached s)) = 180000
timeout_ms d (Command.psn Psn.get_gprs_attached) = 10000
timeout_ms d (Command.psn (Psn.set_pdp_context_state s c)) = 150000
timeout_ms d (Command.psn Psn.get_pdp_context_state) = 150000
timeout_ms d (Command.ip_transport_layer (IpTransportLayer.close_socket s)) = 120000
timeout_ms d (Command.ip_transport_layer (IpTransportLayer.connect_socket s a)) = 120000
timeout_ms d (Command.device_data_security (DeviceDataSecurity.send_security_data_import b)) = 3000
timeout_ms d (Command.resolve_name_ip t s) = 120000
timeout_ms d _ = d

-- `abortable`
unfoldable pub abortable : Command → Bool
abortable (Command.psn (Psn.set_packet_switched_action p a)) = true
abortable (Command.psn (Psn.set_gprs_attached s)) = true
abortable (Command.psn Psn.get_gprs_attached) = true
abortable (Command.psn (Psn.set_pdp_context_state s c)) = true
abortable (Command.psn Psn.get_pdp_context_state) = true
abortable _ = false
