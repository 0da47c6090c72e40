-- ===== src/Command/Lengths.antt =====
-- ublox-cellular/src/command: the `len` that the command structs declare for their texts and byte
-- strings. What the derive macros make of it is not in the source.
use fibocom_cellular_rs.Prelude.{Bool, true, ◌&&◌, none, some, length, leb}
use fibocom_cellular_rs.Command.Request.{
  Command, MobileControl, Psn, DeviceLock, IpTransportLayer, DeviceDataSecurity, FileSystem,
}

-- psn/mod.rs
unfoldable pub psn_within_len : Psn → Bool
psn_within_len (Psn.set_pdp_context_definition cid pdp_type apn) =
    leb (length pdp_type) 6 && leb (length apn) 99
psn_within_len (Psn.set_auth_parameters cid type username password) =
    leb (length username) 64 && leb (length password) 64
psn_within_len _ = true

-- device_lock/mod.rs
unfoldable pub device_lock_within_len : DeviceLock → Bool
device_lock_within_len (DeviceLock.set_pin pin) = leb (length pin) 4
device_lock_within_len (DeviceLock.change_pin puk newpin) =
    leb (length puk) 8 && leb (length newpin) 4
device_lock_within_len _ = true

-- ip_transport_layer/mod.rs
unfoldable pub ip_transport_layer_within_len : IpTransportLayer → Bool
ip_transport_layer_within_len (IpTransportLayer.write_socket_data socket n data_) =
    leb (length data_) 512
ip_transport_layer_within_len (IpTransportLayer.write_socket_data_hex socket n data_) =
    leb (length data_) 512
ip_transport_layer_within_len (IpTransportLayer.write_socket_data_binary data_) =
    leb (length data_) 1024
ip_transport_layer_within_len (IpTransportLayer.udp_send_to_data_binary data_) =
    leb (length data_) 512
ip_transport_layer_within_len _ = true

-- device_data_security/mod.rs
unfoldable pub device_data_security_within_len : DeviceDataSecurity → Bool
device_data_security_within_len (DeviceDataSecurity.prepare_security_data_import type name n none) =
    leb (length name) 200
device_data_security_within_len
      (DeviceDataSecurity.prepare_security_data_import type name n (some password)) =
    leb (length name) 200 && leb (length password) 128
device_data_security_within_len (DeviceDataSecurity.send_security_data_import data_) =
    leb (length data_) 2048
device_data_security_within_len (DeviceDataSecurity.delete_security_data type name) =
    leb (length name) 200
device_data_security_within_len (DeviceDataSecurity.retrieve_security_md5 type name) =
    leb (length name) 200
device_data_security_within_len _ = true

-- file_system/mod.rs
unfoldable pub file_system_within_len : FileSystem → Bool
file_system_within_len (FileSystem.prepare_download_file filename size) = leb (length filename) 248
file_system_within_len (FileSystem.download_file text) = leb (length text) 2048
file_system_within_len FileSystem.list_files = true
file_system_within_len (FileSystem.read_file filename) = leb (length filename) 248
file_system_within_len (FileSystem.read_block filename offset size) = leb (length filename) 248
file_system_within_len (FileSystem.delete_file filename) = leb (length filename) 248

-- No text or byte string of the command is longer than its struct declares.
unfoldable pub within_len : Command → Bool
unfolding psn_within_len device_lock_within_len ip_transport_layer_within_len
    device_data_security_within_len file_system_within_len
within_len (Command.mobile_control (MobileControl.set_clock time)) = leb (length time) 20
within_len (Command.psn c) = psn_within_len c
within_len (Command.device_lock c) = device_lock_within_len c
within_len (Command.ip_transport_layer c) = ip_transport_layer_within_len c
within_len (Command.device_data_security c) = device_data_security_within_len c
within_len (Command.file_system c) = file_system_within_len c
within_len (Command.resolve_name_ip type name) = leb (length name) 128
within_len _ = true
