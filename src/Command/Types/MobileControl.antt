-- ===== src/Command/Types/MobileControl.antt =====
-- ublox-cellular/src/command/mobile_control/types.rs. The variants of all modules are there: the
-- source keeps those of the module that it is compiled for. `..._code` is the number of a variant,
-- and `..._tag` that of a variant with fields.
use fibocom_cellular_rs.Prelude.{ℕ}

pub data Functionality : Type 0 where
  minimum full airplane_mode dedicated_mode disable_sim_toolkit : Functionality
  disable_sim_toolkit_ raw_mode silent_reset silent_reset_with_sim_reset : Functionality
  minimum_without_sim halt : Functionality

unfoldable pub functionality_code : Functionality → ℕ
functionality_code Functionality.minimum = 0
functionality_code Functionality.full = 1
functionality_code Functionality.airplane_mode = 4
functionality_code Functionality.dedicated_mode = 6
functionality_code Functionality.disable_sim_toolkit = 7
functionality_code Functionality.disable_sim_toolkit_ = 8
functionality_code Functionality.raw_mode = 9
functionality_code Functionality.silent_reset = 15
functionality_code Functionality.silent_reset_with_sim_reset = 16
functionality_code Functionality.minimum_without_sim = 19
functionality_code Functionality.halt = 127

pub data ResetMode : Type 0 where
  dont_reset reset : ResetMode

unfoldable pub reset_mode_code : ResetMode → ℕ
reset_mode_code ResetMode.dont_reset = 0
reset_mode_code ResetMode.reset = 1

pub data AutomaticTimezone : Type 0 where
  disabled enabled_local enabled_gmt : AutomaticTimezone

unfoldable pub automatic_timezone_code : AutomaticTimezone → ℕ
automatic_timezone_code AutomaticTimezone.disabled = 0
automatic_timezone_code AutomaticTimezone.enabled_local = 1
automatic_timezone_code AutomaticTimezone.enabled_gmt = 2

pub data TerminationErrorMode : Type 0 where
  disabled enabled verbose : TerminationErrorMode

unfoldable pub termination_error_mode_code : TerminationErrorMode → ℕ
termination_error_mode_code TerminationErrorMode.disabled = 0
termination_error_mode_code TerminationErrorMode.enabled = 1
termination_error_mode_code TerminationErrorMode.verbose = 2

pub data PowerMode : Type 0 where
  minimum on airplane_mode test_mode minimum_without_sim : PowerMode

unfoldable pub power_mode_code : PowerMode → ℕ
power_mode_code PowerMode.minimum = 0
power_mode_code PowerMode.on = 1
power_mode_code PowerMode.airplane_mode = 4
power_mode_code PowerMode.test_mode = 5
power_mode_code PowerMode.minimum_without_sim = 19

pub data StkMode : Type 0 where
  dedicated_mode disabled raw_mode : StkMode

unfoldable pub stk_mode_code : StkMode → ℕ
stk_mode_code StkMode.dedicated_mode = 6
stk_mode_code StkMode.disabled = 0
stk_mode_code StkMode.raw_mode = 9

pub data ReportMobileTerminationErrorStatus : Type 0 where
  disabled_error_used enabled_code_used enabled_verbose : ReportMobileTerminationErrorStatus

unfoldable pub report_mobile_termination_error_status_code : ReportMobileTerminationErrorStatus → ℕ
report_mobile_termination_error_status_code ReportMobileTerminationErrorStatus.disabled_error_used =
    0
report_mobile_termination_error_status_code ReportMobileTerminationErrorStatus.enabled_code_used = 1
report_mobile_termination_error_status_code ReportMobileTerminationErrorStatus.enabled_verbose = 2
