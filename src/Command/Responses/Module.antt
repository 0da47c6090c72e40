-- ===== src/Command/Responses/Module.antt =====
-- ublox-cellular/src/command: the responses.rs of general, mobile_control, gpio, system_features
-- and device_lock.
use fibocom_cellular_rs.Prelude.{ℕ, Option}
use fibocom_cellular_rs.Command.Types.{
  Bytes, PowerMode, StkMode, ReportMobileTerminationErrorStatus, GpioMode, PowerSavingMode,
  FsFactoryRestoreType, NvmFactoryRestoreType, PinStatusCode,
}

pub record ManufacturerId : Type 0 where
  pub manufacturer : Bytes

pub record ModelId : Type 0 where
  pub model : Bytes

pub record FirmwareVersion : Type 0 where
  pub version : Bytes

pub record Imei : Type 0 where
  pub imei : ℕ

pub record IdentificationInformationResponse : Type 0 where
  pub app_ver : Bytes

pub record Cimi : Type 0 where
  pub imsi : ℕ

pub record Ccid : Type 0 where
  pub ccid : ℕ

pub record ModuleFunctionality : Type 0 where
  pub power_mode : PowerMode
  pub stk_mode : Option StkMode

pub record IndicatorControl : Type 0 where
  pub battchg : ℕ
  pub signal : ℕ
  pub service : ℕ
  pub sounder : ℕ
  pub message : ℕ
  pub call : ℕ
  pub roam : ℕ
  pub smsfull : ℕ
  pub gprs : ℕ
  pub callsetup : ℕ
  pub callheld : ℕ
  pub simind : ℕ

pub record DateTime : Type 0 where
  pub time : Bytes

pub record ReportMobileTerminationError : Type 0 where
  pub status : ReportMobileTerminationErrorStatus

pub record ExtendedErrorReport : Type 0 where
  pub type_ : Bytes
  pub cause : ℕ
  pub description : Bytes

pub record GpioConfiguration : Type 0 where
  pub gpio_id : ℕ
  pub gpio_mode : GpioMode

-- The timeout is a `Seconds`.
pub record PowerSavingControl : Type 0 where
  pub mode : PowerSavingMode
  pub timeout : Option ℕ

pub record FactoryConfiguration : Type 0 where
  pub fs_op : FsFactoryRestoreType
  pub nvm_op : NvmFactoryRestoreType

pub record PinStatus : Type 0 where
  pub code : PinStatusCode
