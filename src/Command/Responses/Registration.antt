-- ===== src/Command/Responses/Registration.antt =====
-- ublox-cellular/src/command/network_service/responses.rs and psn/responses.rs. A profile and a
-- context are their numbers.
use fibocom_cellular_rs.Prelude.{ℕ, Option}
use fibocom_cellular_rs.Command.Types.{
  Bytes, OperatorSelectionMode, OperatorNameFormat, RatAct, RadioAccessTechnologySelected,
  NetworkRegistrationUrcConfig, NetworkRegistrationStat, PdpContextStatus, GprsAttachedState,
  GprsNetworkRegistrationUrcConfig, GprsNetworkRegistrationStat, EpsNetworkRegistrationUrcConfig,
  EpsNetworkRegistrationStat, ExtendedPsNetworkRegistrationUrcConfig,
  ExtendedPsNetworkRegistrationState, PacketSwitchedParam, PacketSwitchedNetworkDataParam,
}

pub record SignalQuality : Type 0 where
  pub rxlev : ℕ
  pub ber : ℕ
  pub rscp : ℕ
  pub ecn0 : ℕ
  pub rsrq : ℕ
  pub rsrp : ℕ

pub record OperatorSelection : Type 0 where
  pub mode : OperatorSelectionMode
  pub oper : Option OperatorNameFormat
  pub act : Option RatAct

pub record RadioAccessTechnology : Type 0 where
  pub act : RadioAccessTechnologySelected

pub record NetworkRegistrationStatus : Type 0 where
  pub n : NetworkRegistrationUrcConfig
  pub stat : NetworkRegistrationStat
  pub lac : Option Bytes
  pub ci : Option Bytes
  pub act_status : Option ℕ

pub record PacketSwitchedConfig : Type 0 where
  pub profile_id : ℕ
  pub param : PacketSwitchedParam

pub record PacketSwitchedNetworkData : Type 0 where
  pub profile : ℕ
  pub param : PacketSwitchedNetworkDataParam
  pub param_tag : ℕ

pub record GprsAttached : Type 0 where
  pub state : GprsAttachedState

pub record PdpContextState : Type 0 where
  pub cid : ℕ
  pub status : PdpContextStatus

pub record GprsNetworkRegistrationStatus : Type 0 where
  pub n : GprsNetworkRegistrationUrcConfig
  pub stat : GprsNetworkRegistrationStat
  pub lac : Option Bytes
  pub ci : Option Bytes
  pub act : Option RatAct
  pub rac : Option Bytes

pub record ExtendedPsNetworkRegistrationStatus : Type 0 where
  pub n : ExtendedPsNetworkRegistrationUrcConfig
  pub state : ExtendedPsNetworkRegistrationState

pub record EpsNetworkRegistrationStatus : Type 0 where
  pub n : EpsNetworkRegistrationUrcConfig
  pub stat : EpsNetworkRegistrationStat
  pub tac : Option Bytes
  pub ci : Option Bytes
  pub act : Option RatAct
