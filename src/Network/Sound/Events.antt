-- ===== src/Network/Sound/Events.antt =====
-- network.rs: every operation of the network keeps its state sound.
use fibocom_cellular_rs.Prelude.{ℕ, suc, true, false, some}
use fibocom_cellular_rs.Command.{Command}
use fibocom_cellular_rs.Env.{Env, IsMonotone, IsAdvancing}
use fibocom_cellular_rs.Effect.Laws.{Keeps, keeping}
use fibocom_cellular_rs.Network.State.{modify_status, reset_reg_time}
use fibocom_cellular_rs.Network.Watch.{
  check_registration_state, update_creg, update_cgreg, update_cereg, update_registration,
  check_running_imsi,
}
use fibocom_cellular_rs.Network.Intervene.{
  Intervention, rf_off, rf_on, gprs_attach, plmn_reselection, rf_reset, intervene,
  intervene_registration,
}
use fibocom_cellular_rs.Network.Events.{poll_registration, process_events}
use fibocom_cellular_rs.Network.Sound.Status.{with_times}
use fibocom_cellular_rs.Network.Sound.Actions.{
  SoundSince, handle_urc-Sound, send_internal-Sound, modify_status-Sound,
  compare_and_set-SoundSince, reset-SoundSince, reset_statuses-SoundSince, reset_psd-SoundSince,
  count_intervention-SoundSince, set_connection_state-SoundSince, zero_timeouts-SoundSince,
  Keeps-now,
}

module _ (env : Env) (advancing : IsAdvancing env) (monotone : IsMonotone env) where
  -- The instant that was read just before.
  imsi_checked-SoundSince :
      (ts : ℕ) {E : Type 0}
      → Keeps {E = E}
          (SoundSince env (suc ts))
          (modify_status λ s. record s { imsi_check_time = some ts })
  imsi_checked-SoundSince ts =
      modify_status-Sound env advancing monotone (suc ts) _
        λ s l since h. with_times env s l _ _ _ _ h h.intervened h.reg_checked h.reg_started since

  reg_checked-SoundSince :
      (ts : ℕ) {E : Type 0}
      → Keeps {E = E}
          (SoundSince env (suc ts))
          (modify_status λ s. record s { reg_check_time = some ts })
  reg_checked-SoundSince ts =
      modify_status-Sound env advancing monotone (suc ts) _
        λ s l since h. with_times env s l _ _ _ _ h h.intervened since h.reg_started h.imsi_checked

  reg_started-SoundSince :
      (ts : ℕ) {E : Type 0}
      → Keeps {E = E}
          (SoundSince env (suc ts))
          (modify_status λ s. record s { reg_start_time = some ts })
  reg_started-SoundSince ts =
      modify_status-Sound env advancing monotone (suc ts) _
        λ s l since h. with_times env s l _ _ _ _ h h.intervened h.reg_checked since h.imsi_checked

  rechecked-SoundSince :
      (t : ℕ) {E : Type 0}
      → Keeps {E = E}
          (SoundSince env t)
          (modify_status λ s. record s { reg_check_time = s.reg_start_time })
  rechecked-SoundSince t = modify_status-Sound env advancing monotone t _ λ s l since h.
      with_times env s l _ _ _ _ h h.intervened h.reg_started h.reg_started h.imsi_checked

  ruleset sound_rules = (
    keeping, handle_urc-Sound, send_internal-Sound, compare_and_set-SoundSince, reset-SoundSince,
    reset_statuses-SoundSince, reset_psd-SoundSince, count_intervention-SoundSince,
    set_connection_state-SoundSince, zero_timeouts-SoundSince, imsi_checked-SoundSince,
    reg_checked-SoundSince, reg_started-SoundSince, rechecked-SoundSince,
  )

  module _ (t : ℕ) where
    update_creg-Sound : Keeps (SoundSince env t) (update_creg env)
    unfolding update_creg
    update_creg-Sound = search sound_rules depth 40

    update_cgreg-Sound : Keeps (SoundSince env t) (update_cgreg env)
    unfolding update_cgreg
    update_cgreg-Sound = search sound_rules depth 40

    update_cereg-Sound : Keeps (SoundSince env t) (update_cereg env)
    unfolding update_cereg
    update_cereg-Sound = search sound_rules depth 40

    pub update_registration-Sound : Keeps (SoundSince env t) (update_registration env)
    unfolding update_registration
    update_registration-Sound =
        search (sound_rules, update_creg-Sound, update_cgreg-Sound, update_cereg-Sound) depth 40

    check_registration_state-Sound :
        {E : Type 0} → Keeps {E = E} (SoundSince env t) (check_registration_state env)
    unfolding check_registration_state
    check_registration_state-Sound = search sound_rules depth 40

    rf_reset-Sound : Keeps (SoundSince env t) (rf_reset env)
    unfolding rf_reset
    rf_reset-Sound =
        let off = send_internal-Sound env advancing monotone t (rf_off env) false in
        let on = send_internal-Sound env advancing monotone t rf_on false in
        search sound_rules depth 40

    intervene-Sound : (i : Intervention) → Keeps (SoundSince env t) (intervene env i)
    unfolding intervene
    intervene-Sound Intervention.reselect = search sound_rules depth 40
    intervene-Sound Intervention.rf_reset_eps = rf_reset-Sound
    intervene-Sound Intervention.rf_reset_csd = rf_reset-Sound
    intervene-Sound Intervention.attach =
        let attach = send_internal-Sound env advancing monotone t gprs_attach true in
        let reselect = send_internal-Sound env advancing monotone t plmn_reselection true in
        search sound_rules depth 40
    intervene-Sound Intervention.leave = search sound_rules

  intervene_registration-Sound : (t : ℕ) → Keeps (SoundSince env t) (intervene_registration env)
  unfolding intervene_registration
  intervene_registration-Sound t = search (sound_rules, intervene-Sound, Keeps-now) depth 40

  check_running_imsi-Sound : (t : ℕ) → Keeps (SoundSince env t) (check_running_imsi env)
  unfolding check_running_imsi
  check_running_imsi-Sound t =
      let at = λ (t : ℕ). send_internal-Sound env advancing monotone t Command.at false in
      search (sound_rules, at, Keeps-now) depth 40

  poll_registration-Sound : (t : ℕ) → Keeps (SoundSince env t) (poll_registration env)
  unfolding poll_registration
  poll_registration-Sound t = search (sound_rules, update_registration-Sound, Keeps-now) depth 60

  pub reset_reg_time-Sound :
      (t : ℕ) {E : Type 0} → Keeps {E = E} (SoundSince env t) (reset_reg_time env)
  unfolding reset_reg_time
  reset_reg_time-Sound t = search (sound_rules, Keeps-now) depth 60

  pub process_events-Sound : (t : ℕ) → Keeps (SoundSince env t) (process_events env)
  unfolding process_events
  process_events-Sound t =
      search
        (
          sound_rules, check_registration_state-Sound, intervene_registration-Sound,
          check_running_imsi-Sound, poll_registration-Sound,
        )
        depth 60
