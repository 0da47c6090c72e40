-- ===== src/Command/Codes/Distinct.antt =====
-- ublox-cellular/src/command: the numbers of an enum's variants tell them apart.
use fibocom_cellular_rs.Prelude.{
  ℕ, ◌<◌, ◌^◌, ◌≡◌, refl, Bool, true, ◌&&◌, some, List, [], ◌∷◌, ltb, arith,
}
use fibocom_cellular_rs.Command.Types.{
  operator_selection_mode_code, rat_act_code, network_registration_urc_config_code,
  network_stat_code, rat_preferred_code, first_radio_access_technology_code,
  second_radio_access_technology_code, third_radio_access_technology_code, pdp_context_status_code,
  packet_switched_param_req_code, protocol_type_code, authentication_type_code,
  data_compression_code, header_compression_code, qos_precedence_code, qos_delay_code,
  qos_reliability_code, packet_switched_action_code, packet_switched_network_data_param_code,
  gprs_attached_state_code, gprs_network_registration_urc_config_code, ps_event_reporting_mode_code,
  gprs_stat_code, extended_ps_network_registration_urc_config_code,
  extended_ps_network_registration_state_code, eps_network_registration_urc_config_code,
  eps_stat_code, functionality_code, reset_mode_code, automatic_timezone_code,
  termination_error_mode_code, power_mode_code, stk_mode_code,
  report_mobile_termination_error_status_code, circuit109_behaviour_code, circuit108_behaviour_code,
  flow_control_code, software_flow_control_code, baud_rate_code, gpio_out_value_code,
  gpio_in_pull_code, security_operation_code, security_data_type_code, pinning_level_code,
  certificate_validation_level_code, snt_code, power_saving_mode_code, fs_factory_restore_type_code,
  nvm_factory_restore_type_code, socket_protocol_code, hex_mode_code, socket_control_param_code,
  message_indication_type_code, message_waiting_mode_code, resolution_type_code,
}
use fibocom_cellular_rs.Command.Codes.{Enum, Variant, code, width}
use fibocom_cellular_rs.Command.Codes.Variants.{variants}
use fibocom_cellular_rs.Command.Codes.Lookup.{find_code, find_code-code}

all_below : {A : Type 0} → (A → ℕ) → ℕ → List A → Bool
all_below f n [] = true
all_below f n (x ∷ xs) = ltb (f x) n && all_below f n xs

found-below :
    {A : Type 0} (f : A → ℕ) (n bound : ℕ) (x : A) (xs : List A)
    → find_code f n xs ≡ some x
    → all_below f bound xs ≡ true
    → f x < bound
unfolding find_code all_below
found-below f n bound x [] h b = grind arith
found-below f n bound x (y ∷ ys) h b = let ih = found-below f n bound x ys in grind arith

all_below-variants : (e : Enum) → all_below (code e) (2 ^ width e) (variants e) ≡ true
unfolding all_below code variants width operator_selection_mode_code rat_act_code
    network_registration_urc_config_code network_stat_code rat_preferred_code
    first_radio_access_technology_code second_radio_access_technology_code
    third_radio_access_technology_code pdp_context_status_code packet_switched_param_req_code
    protocol_type_code authentication_type_code data_compression_code header_compression_code
    qos_precedence_code qos_delay_code qos_reliability_code packet_switched_action_code
    packet_switched_network_data_param_code gprs_attached_state_code
    gprs_network_registration_urc_config_code ps_event_reporting_mode_code gprs_stat_code
    extended_ps_network_registration_urc_config_code extended_ps_network_registration_state_code
    eps_network_registration_urc_config_code eps_stat_code functionality_code reset_mode_code
    automatic_timezone_code termination_error_mode_code power_mode_code stk_mode_code
    report_mobile_termination_error_status_code circuit109_behaviour_code circuit108_behaviour_code
    flow_control_code software_flow_control_code baud_rate_code gpio_out_value_code
    gpio_in_pull_code security_operation_code security_data_type_code pinning_level_code
    certificate_validation_level_code snt_code power_saving_mode_code fs_factory_restore_type_code
    nvm_factory_restore_type_code socket_protocol_code hex_mode_code socket_control_param_code
    message_indication_type_code message_waiting_mode_code resolution_type_code
all_below-variants Enum.operator_selection_mode = refl
all_below-variants _ = refl

-- The numbers that the source gives the variants of an enum fit into the integer type that they
-- are sent in, a byte or the 32 bits of the baud rates, and no two variants share one.
pub code-injective :
    (e : Enum) (x y : Variant e) → (code e x < 2 ^ width e) × (code e x ≡ code e y → x ≡ y)
code-injective e x y =
    let fx = find_code-code e x in
    let fy = find_code-code e y in
    (found-below _ _ _ x (variants e) fx (all_below-variants e), λ h. cc)
