-- ===== src/Command/Unsolicited.antt =====
-- ublox-cellular/src/command: the unsolicited result codes (mod.rs, and the urc.rs of
-- ip_transport_layer, psn, network_service, sms and http).
use fibocom_cellular_rs.Prelude.{ℕ, Option}
use fibocom_cellular_rs.Command.Types.{
  Bytes, RatAct, NetworkRegistrationStat, GprsNetworkRegistrationStat, EpsNetworkRegistrationStat,
  ExtendedPsNetworkRegistrationState, MessageIndicationType,
}

pub record SocketDataAvailable : Type 0 where
  pub socket : ℕ
  pub length : ℕ

pub record SocketClosed : Type 0 where
  pub socket : ℕ

pub record DataConnectionActivated : Type 0 where
  pub result : ℕ
  pub ip_addr : Option Bytes

pub record DataConnectionDeactivated : Type 0 where
  pub profile_id : ℕ

pub record GprsNetworkRegistration : Type 0 where
  pub stat : GprsNetworkRegistrationStat
  pub lac : Option Bytes
  pub ci : Option Bytes
  pub act : Option RatAct
  pub rac : Option Bytes

pub record ExtendedPsNetworkRegistration : Type 0 where
  pub state : ExtendedPsNetworkRegistrationState

pub record EpsNetworkRegistration : Type 0 where
  pub stat : EpsNetworkRegistrationStat
  pub tac : Option Bytes
  pub ci : Option Bytes
  pub act : Option RatAct
  pub cause_type : Option ℕ
  pub reject_cause : Option ℕ

pub record NetworkRegistration : Type 0 where
  pub stat : NetworkRegistrationStat
  pub lac : Option Bytes
  pub ci : Option Bytes
  pub act_status : Option ℕ

pub record MessageWaitingIndication : Type 0 where
  pub status : ℕ
  pub code : MessageIndicationType

pub record HttpResponse : Type 0 where
  pub profile_id : ℕ
  pub http_command : ℕ
  pub http_result : ℕ

-- The registration codes of the network, GPRS and EPS are commented out in the source.
pub data Urc : Type 0 where
  network_detach mobile_station_detach network_deactivate mobile_station_deactivate : Urc
  network_pdn_deactivate mobile_station_pdn_deactivate : Urc
  socket_data_available : SocketDataAvailable → Urc
  socket_data_available_udp : SocketDataAvailable → Urc
  data_connection_activated : DataConnectionActivated → Urc
  data_connection_deactivated : DataConnectionDeactivated → Urc
  socket_closed : SocketClosed → Urc
  message_waiting_indication : MessageWaitingIndication → Urc
  extended_ps_network_registration : ExtendedPsNetworkRegistration → Urc
  http_response : HttpResponse → Urc
