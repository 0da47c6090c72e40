-- ===== src/Error.antt =====
-- The error types: ublox-cellular/src/error.rs, services/data/error.rs and the one of network.rs,
-- with their conversions. The errors of the `atat` and `ublox-sockets` crates are named as far as
-- the driver names them; `other` stands for the rest.
use fibocom_cellular_rs.Prelude.{ℕ}

-- atat::Error
pub data AtError : Type 0 where
  timeout read write invalid_response aborted parse error : AtError
  other : ℕ → AtError

pub data GenericError : Type 0 where
  timeout clock unsupported : GenericError

pub data NetworkError : Type 0 where
  generic : GenericError → NetworkError
  at : AtError → NetworkError
  registration_denied unknown_profile activation_failed unknown_ : NetworkError

-- ublox_sockets::Error
pub data SocketError : Type 0 where
  socket_set_full unaddressable illegal socket_closed bad_length invalid_socket : SocketError
  exhausted : SocketError
  other : ℕ → SocketError

pub data DataError : Type 0 where
  invalid_apn socket_memory wrong_socket_type bad_length dns buffer_full invalid_hex : DataError
  socket : SocketError → DataError
  network : NetworkError → DataError
  generic : GenericError → DataError
  unknown_ : DataError

pub data DeviceError : Type 0 where
  baud_detection busy uninitialized state_timeout : DeviceError
  network : NetworkError → DeviceError
  data_service : DataError → DeviceError
  generic : GenericError → DeviceError
  unknown_ : DeviceError

-- nb::Error
pub data NbError (E : Type 0) : Type 0 where
  other : E → NbError E
  would_block : NbError E

-- impl From<NetworkError> for data::Error
abbrev pub data_of_network : NetworkError → DataError
data_of_network (NetworkError.generic g) = DataError.generic g
data_of_network e = DataError.network e

-- impl From<data::Error> for Error
abbrev pub device_of_data : DataError → DeviceError
device_of_data (DataError.generic g) = DeviceError.generic g
device_of_data (DataError.network g) = DeviceError.network g
device_of_data e = DeviceError.data_service e

-- impl From<NetworkError> for Error
abbrev pub device_of_network : NetworkError → DeviceError
device_of_network (NetworkError.generic g) = DeviceError.generic g
device_of_network e = DeviceError.network e
