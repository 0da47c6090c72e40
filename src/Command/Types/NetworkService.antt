-- ===== src/Command/Types/NetworkService.antt =====
-- ublox-cellular/src/command/network_service/types.rs.
-- `..._code` is the number of a variant, and `..._tag` that of a variant with fields.
use fibocom_cellular_rs.Prelude.{ℕ}
use fibocom_cellular_rs.Command.Types.Text.{Bytes}

pub data OperatorSelectionMode : Type 0 where
  automatic manual deregister format_only manual_automatic : OperatorSelectionMode
  extended_network_search extended_network_search_without_tags : OperatorSelectionMode
  network_timing_advance_search unknown : OperatorSelectionMode

unfoldable pub operator_selection_mode_code : OperatorSelectionMode → ℕ
operator_selection_mode_code OperatorSelectionMode.automatic = 0
operator_selection_mode_code OperatorSelectionMode.manual = 1
operator_selection_mode_code OperatorSelectionMode.deregister = 2
operator_selection_mode_code OperatorSelectionMode.format_only = 3
operator_selection_mode_code OperatorSelectionMode.manual_automatic = 4
operator_selection_mode_code OperatorSelectionMode.extended_network_search = 5
operator_selection_mode_code OperatorSelectionMode.extended_network_search_without_tags = 6
operator_selection_mode_code OperatorSelectionMode.network_timing_advance_search = 8
operator_selection_mode_code OperatorSelectionMode.unknown = 9

pub data RatAct : Type 0 where
  gsm gsm_compact utran gsm_gprs_edge utran_hspda utran_hsupa utran_hspda_hsupa lte : RatAct
  ec_gsm_iot eutran unknown : RatAct

unfoldable pub rat_act_code : RatAct → ℕ
rat_act_code RatAct.gsm = 0
rat_act_code RatAct.gsm_compact = 1
rat_act_code RatAct.utran = 2
rat_act_code RatAct.gsm_gprs_edge = 3
rat_act_code RatAct.utran_hspda = 4
rat_act_code RatAct.utran_hsupa = 5
rat_act_code RatAct.utran_hspda_hsupa = 6
rat_act_code RatAct.lte = 7
rat_act_code RatAct.ec_gsm_iot = 8
rat_act_code RatAct.eutran = 9
rat_act_code RatAct.unknown = 10

pub data NetworkRegistrationUrcConfig : Type 0 where
  urc_disabled urc_enabled urc_verbose : NetworkRegistrationUrcConfig

unfoldable pub network_registration_urc_config_code : NetworkRegistrationUrcConfig → ℕ
network_registration_urc_config_code NetworkRegistrationUrcConfig.urc_disabled = 0
network_registration_urc_config_code NetworkRegistrationUrcConfig.urc_enabled = 1
network_registration_urc_config_code NetworkRegistrationUrcConfig.urc_verbose = 2

pub data NetworkRegistrationStat : Type 0 where
  not_registered registered not_registered_searching : NetworkRegistrationStat
  registration_denied unknown registered_roaming : NetworkRegistrationStat
  registered_sms_only registered_sms_only_roaming : NetworkRegistrationStat
  registered_csfb_not_perferred : NetworkRegistrationStat
  registered_csfb_not_perferred_roaming : NetworkRegistrationStat

unfoldable pub network_stat_code : NetworkRegistrationStat → ℕ
network_stat_code NetworkRegistrationStat.not_registered = 0
network_stat_code NetworkRegistrationStat.registered = 1
network_stat_code NetworkRegistrationStat.not_registered_searching = 2
network_stat_code NetworkRegistrationStat.registration_denied = 3
network_stat_code NetworkRegistrationStat.unknown = 4
network_stat_code NetworkRegistrationStat.registered_roaming = 5
network_stat_code NetworkRegistrationStat.registered_sms_only = 6
network_stat_code NetworkRegistrationStat.registered_sms_only_roaming = 7
network_stat_code NetworkRegistrationStat.registered_csfb_not_perferred = 9
network_stat_code NetworkRegistrationStat.registered_csfb_not_perferred_roaming = 10

pub data RatPreferred : Type 0 where
  gsm_gprs_egprs utran lte : RatPreferred

unfoldable pub rat_preferred_code : RatPreferred → ℕ
rat_preferred_code RatPreferred.gsm_gprs_egprs = 0
rat_preferred_code RatPreferred.utran = 2
rat_preferred_code RatPreferred.lte = 3

pub data RadioAccessTechnologySelected : Type 0 where
  gsm_gprs_egprs : RadioAccessTechnologySelected
  gsm_umts : RatPreferred → RadioAccessTechnologySelected
  umts lte : RadioAccessTechnologySelected
  gsm_umts_lte : RatPreferred → RatPreferred → RadioAccessTechnologySelected
  gsm_lte : RatPreferred → RadioAccessTechnologySelected
  umts_lte : RatPreferred → RadioAccessTechnologySelected

unfoldable pub radio_access_technology_selected_tag : RadioAccessTechnologySelected → ℕ
radio_access_technology_selected_tag RadioAccessTechnologySelected.gsm_gprs_egprs = 0
radio_access_technology_selected_tag (RadioAccessTechnologySelected.gsm_umts x) = 1
radio_access_technology_selected_tag RadioAccessTechnologySelected.umts = 2
radio_access_technology_selected_tag RadioAccessTechnologySelected.lte = 3
radio_access_technology_selected_tag (RadioAccessTechnologySelected.gsm_umts_lte x y) = 4
radio_access_technology_selected_tag (RadioAccessTechnologySelected.gsm_lte x) = 5
radio_access_technology_selected_tag (RadioAccessTechnologySelected.umts_lte x) = 6

pub data FirstRadioAccessTechnology : Type 0 where
  gsm_gprs_egprs umts lte : FirstRadioAccessTechnology

unfoldable pub first_radio_access_technology_code : FirstRadioAccessTechnology → ℕ
first_radio_access_technology_code FirstRadioAccessTechnology.gsm_gprs_egprs = 0
first_radio_access_technology_code FirstRadioAccessTechnology.umts = 2
first_radio_access_technology_code FirstRadioAccessTechnology.lte = 3

pub data SecondRadioAccessTechnology : Type 0 where
  umts : SecondRadioAccessTechnology

unfoldable pub second_radio_access_technology_code : SecondRadioAccessTechnology → ℕ
second_radio_access_technology_code SecondRadioAccessTechnology.umts = 2

pub data ThirdRadioAccessTechnology : Type 0 where
  gsm_gprs_egprs : ThirdRadioAccessTechnology

unfoldable pub third_radio_access_technology_code : ThirdRadioAccessTechnology → ℕ
third_radio_access_technology_code ThirdRadioAccessTechnology.gsm_gprs_egprs = 0

pub data OperatorNameFormat : Type 0 where
  long : Bytes → OperatorNameFormat
  short : Bytes → OperatorNameFormat
  numeric : Bytes → OperatorNameFormat

unfoldable pub operator_name_format_tag : OperatorNameFormat → ℕ
operator_name_format_tag (OperatorNameFormat.long x) = 0
operator_name_format_tag (OperatorNameFormat.short x) = 1
operator_name_format_tag (OperatorNameFormat.numeric x) = 2
