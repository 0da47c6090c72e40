-- ===== src/Registration/Params.antt =====
-- registration.rs: `RegType`, `RadioAccessNetwork`, `RegistrationParams` and the conversions into
-- them from the three registration reports.
use fibocom_cellular_rs.Prelude.{ℕ, Option, none, some, ◌==◌, if◌then◌else◌}
use fibocom_cellular_rs.Command.{
  Bytes, RatAct, NetworkRegistrationStat, GprsNetworkRegistrationStat, EpsNetworkRegistrationStat,
  network_stat_code, gprs_stat_code, eps_stat_code, NetworkRegistrationStatus,
  GprsNetworkRegistrationStatus, EpsNetworkRegistrationStatus,
}
use fibocom_cellular_rs.Registration.Domain.{Status, status_of_code}

pub data RegType : Type 0 where
  creg cgreg cereg unknown : RegType

pub data RadioAccessNetwork : Type 0 where
  unknown_unused geran utran eutran : RadioAccessNetwork

-- impl From<RadioAccessNetwork> for RegType
unfoldable pub reg_type_of_ran : RadioAccessNetwork → RegType
reg_type_of_ran RadioAccessNetwork.unknown_unused = RegType.unknown
reg_type_of_ran RadioAccessNetwork.geran = RegType.creg
reg_type_of_ran RadioAccessNetwork.utran = RegType.cgreg
reg_type_of_ran RadioAccessNetwork.eutran = RegType.cereg

-- impl From<RegType> for RadioAccessNetwork
unfoldable pub ran_of_reg_type : RegType → RadioAccessNetwork
ran_of_reg_type RegType.unknown = RadioAccessNetwork.unknown_unused
ran_of_reg_type RegType.creg = RadioAccessNetwork.geran
ran_of_reg_type RegType.cgreg = RadioAccessNetwork.utran
ran_of_reg_type RegType.cereg = RadioAccessNetwork.eutran

-- impl From<usize> for RadioAccessNetwork
unfoldable pub ran_of_usize : ℕ → RadioAccessNetwork
ran_of_usize v =
    if v == 1
    then RadioAccessNetwork.geran
    else if v == 2
    then RadioAccessNetwork.utran
    else if v == 3
    then RadioAccessNetwork.eutran
    else RadioAccessNetwork.unknown_unused

-- `as usize`
unfoldable pub ran_code : RadioAccessNetwork → ℕ
ran_code RadioAccessNetwork.unknown_unused = 0
ran_code RadioAccessNetwork.geran = 1
ran_code RadioAccessNetwork.utran = 2
ran_code RadioAccessNetwork.eutran = 3

-- impl From<NetworkRegistrationStat> for Status, and its two kin
unfoldable pub status_of_creg : NetworkRegistrationStat → Status
unfolding status_of_code network_stat_code
status_of_creg v = status_of_code (network_stat_code v)

unfoldable pub status_of_cgreg : GprsNetworkRegistrationStat → Status
unfolding status_of_code gprs_stat_code
status_of_cgreg v = status_of_code (gprs_stat_code v)

unfoldable pub status_of_cereg : EpsNetworkRegistrationStat → Status
unfolding status_of_code eps_stat_code
status_of_cereg v = status_of_code (eps_stat_code v)

pub record RegistrationParams : Type 0 where
  pub reg_type : RegType
  pub status : Status
  pub act : RatAct
  pub cell_id : Option Bytes
  pub lac : Option Bytes

abbrev unwrap_or_unknown : Option RatAct → RatAct
unwrap_or_unknown none = RatAct.unknown
unwrap_or_unknown (some act) = act

-- impl From<NetworkRegistrationStatus> for RegistrationParams: the cell is dropped.
unfoldable pub params_of_creg : NetworkRegistrationStatus → RegistrationParams
unfolding status_of_creg
params_of_creg v = record {
  reg_type = RegType.creg;
  status = status_of_creg v.stat;
  act = RatAct.gsm;
  cell_id = none;
  lac = none;
}

unfoldable pub params_of_cgreg : GprsNetworkRegistrationStatus → RegistrationParams
unfolding status_of_cgreg
params_of_cgreg v = record {
  reg_type = RegType.cgreg;
  status = status_of_cgreg v.stat;
  act = unwrap_or_unknown v.act;
  cell_id = v.ci;
  lac = v.lac;
}

unfoldable pub params_of_cereg : EpsNetworkRegistrationStatus → RegistrationParams
unfolding status_of_cereg
params_of_cereg v = record {
  reg_type = RegType.cereg;
  status = status_of_cereg v.stat;
  act = unwrap_or_unknown v.act;
  cell_id = v.ci;
  lac = v.tac;
}
