-- ===== src/Command/Types/PsnRegistration.antt =====
-- ublox-cellular/src/command/psn/types.rs: the enums on attachment, registration and events.
-- `..._code` is the number of a variant, and `..._tag` that of a variant with fields.
use fibocom_cellular_rs.Prelude.{ℕ}

pub data GprsAttachedState : Type 0 where
  detached attached : GprsAttachedState

unfoldable pub gprs_attached_state_code : GprsAttachedState → ℕ
gprs_attached_state_code GprsAttachedState.detached = 0
gprs_attached_state_code GprsAttachedState.attached = 1

pub data GprsNetworkRegistrationUrcConfig : Type 0 where
  urc_disabled urc_enabled urc_verbose : GprsNetworkRegistrationUrcConfig

unfoldable pub gprs_network_registration_urc_config_code : GprsNetworkRegistrationUrcConfig → ℕ
gprs_network_registration_urc_config_code GprsNetworkRegistrationUrcConfig.urc_disabled = 0
gprs_network_registration_urc_config_code GprsNetworkRegistrationUrcConfig.urc_enabled = 1
gprs_network_registration_urc_config_code GprsNetworkRegistrationUrcConfig.urc_verbose = 2

pub data PsEventReportingMode : Type 0 where
  circular_buffer_urcs discard_urcs buffer_urcs : PsEventReportingMode

unfoldable pub ps_event_reporting_mode_code : PsEventReportingMode → ℕ
ps_event_reporting_mode_code PsEventReportingMode.circular_buffer_urcs = 0
ps_event_reporting_mode_code PsEventReportingMode.discard_urcs = 1
ps_event_reporting_mode_code PsEventReportingMode.buffer_urcs = 2

pub data GprsNetworkRegistrationStat : Type 0 where
  not_registered registered not_registered_searching : GprsNetworkRegistrationStat
  registration_denied unknown registered_roaming : GprsNetworkRegistrationStat
  attached_emergency_only : GprsNetworkRegistrationStat

unfoldable pub gprs_stat_code : GprsNetworkRegistrationStat → ℕ
gprs_stat_code GprsNetworkRegistrationStat.not_registered = 0
gprs_stat_code GprsNetworkRegistrationStat.registered = 1
gprs_stat_code GprsNetworkRegistrationStat.not_registered_searching = 2
gprs_stat_code GprsNetworkRegistrationStat.registration_denied = 3
gprs_stat_code GprsNetworkRegistrationStat.unknown = 4
gprs_stat_code GprsNetworkRegistrationStat.registered_roaming = 5
gprs_stat_code GprsNetworkRegistrationStat.attached_emergency_only = 8

pub data ExtendedPsNetworkRegistrationUrcConfig : Type 0 where
  urc_disabled urc_enabled : ExtendedPsNetworkRegistrationUrcConfig

unfoldable pub extended_ps_network_registration_urc_config_code :
    ExtendedPsNetworkRegistrationUrcConfig → ℕ
extended_ps_network_registration_urc_config_code
      ExtendedPsNetworkRegistrationUrcConfig.urc_disabled =
    0
extended_ps_network_registration_urc_config_code
      ExtendedPsNetworkRegistrationUrcConfig.urc_enabled =
    1

pub data ExtendedPsNetworkRegistrationState : Type 0 where
  not_registered registered_2g_gprs registered_2g_edge : ExtendedPsNetworkRegistrationState
  registered_3g_wcdma registered_3g_hsdpa : ExtendedPsNetworkRegistrationState
  registered_3g_hsupa registered_3g_hspda_hsupa : ExtendedPsNetworkRegistrationState
  registered_4g registered_2g_gprs_dtm : ExtendedPsNetworkRegistrationState
  registered_2g_edge_dtm : ExtendedPsNetworkRegistrationState

unfoldable pub extended_ps_network_registration_state_code : ExtendedPsNetworkRegistrationState → ℕ
extended_ps_network_registration_state_code ExtendedPsNetworkRegistrationState.not_registered = 0
extended_ps_network_registration_state_code ExtendedPsNetworkRegistrationState.registered_2g_gprs =
    1
extended_ps_network_registration_state_code ExtendedPsNetworkRegistrationState.registered_2g_edge =
    2
extended_ps_network_registration_state_code ExtendedPsNetworkRegistrationState.registered_3g_wcdma =
    3
extended_ps_network_registration_state_code ExtendedPsNetworkRegistrationState.registered_3g_hsdpa =
    4
extended_ps_network_registration_state_code ExtendedPsNetworkRegistrationState.registered_3g_hsupa =
    5
extended_ps_network_registration_state_code
      ExtendedPsNetworkRegistrationState.registered_3g_hspda_hsupa =
    6
extended_ps_network_registration_state_code ExtendedPsNetworkRegistrationState.registered_4g = 7
extended_ps_network_registration_state_code
      ExtendedPsNetworkRegistrationState.registered_2g_gprs_dtm =
    8
extended_ps_network_registration_state_code
      ExtendedPsNetworkRegistrationState.registered_2g_edge_dtm =
    9

pub data EpsNetworkRegistrationUrcConfig : Type 0 where
  urc_disabled urc_enabled urc_verbose : EpsNetworkRegistrationUrcConfig

unfoldable pub eps_network_registration_urc_config_code : EpsNetworkRegistrationUrcConfig → ℕ
eps_network_registration_urc_config_code EpsNetworkRegistrationUrcConfig.urc_disabled = 0
eps_network_registration_urc_config_code EpsNetworkRegistrationUrcConfig.urc_enabled = 1
eps_network_registration_urc_config_code EpsNetworkRegistrationUrcConfig.urc_verbose = 2

pub data EpsNetworkRegistrationStat : Type 0 where
  not_registered registered not_registered_searching : EpsNetworkRegistrationStat
  registration_denied unknown registered_roaming : EpsNetworkRegistrationStat
  attached_emergency_only : EpsNetworkRegistrationStat

unfoldable pub eps_stat_code : EpsNetworkRegistrationStat → ℕ
eps_stat_code EpsNetworkRegistrationStat.not_registered = 0
eps_stat_code EpsNetworkRegistrationStat.registered = 1
eps_stat_code EpsNetworkRegistrationStat.not_registered_searching = 2
eps_stat_code EpsNetworkRegistrationStat.registration_denied = 3
eps_stat_code EpsNetworkRegistrationStat.unknown = 4
eps_stat_code EpsNetworkRegistrationStat.registered_roaming = 5
eps_stat_code EpsNetworkRegistrationStat.attached_emergency_only = 8
