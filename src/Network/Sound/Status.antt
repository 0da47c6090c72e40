-- ===== src/Network/Sound/Status.antt =====
-- registration.rs: the registration state stays sound.
use fibocom_cellular_rs.Prelude.{
  ℕ, ◌≤◌, refl, Bool, true, false, if◌then◌else◌, Option, [], ◌∷◌, arith,
}
use fibocom_cellular_rs.Env.{Env, Event, Log, IsAdvancing}
use fibocom_cellular_rs.Effect.{combinators}
use fibocom_cellular_rs.Effect.Laws.{Keeps}
use fibocom_cellular_rs.Registration
use fibocom_cellular_rs.Registration.{
  CellularRegistrationStatus, RegistrationState, RegType, RegistrationParams, reset,
  compare_and_set,
}
use fibocom_cellular_rs.Registration.State.{
  reset_statuses, report, set_cgi, compare_and_set_at, compare_and_set_kind,
}
use fibocom_cellular_rs.Registration.Domain.{Status, set_status, reset_status}
use fibocom_cellular_rs.Registration.Timing.{replay, is_rising}
use fibocom_cellular_rs.Network.Sound.Replayed.{
  IsTimed-later, reset_status-IsReplayed, set_status-IsReplayed,
}
use fibocom_cellular_rs.Network.Sound.{IsPast, IsReplayed, IsTimed, IsSoundStatus}

module _ (env : Env) where
  abbrev Sound : RegistrationState → Log → Type 0
  Sound = IsSoundStatus env

  pub Sound-if :
      (b : Bool) (s s' : RegistrationState) (l : Log)
      → Sound s l
      → Sound s' l
      → Sound (if b then s else s') l
  Sound-if true s s' l h g = h
  Sound-if false s s' l h g = g

  set_cgi-Sound :
      (p : RegistrationParams) (s : RegistrationState) (l : Log) → Sound s l → Sound (set_cgi p s) l
  unfolding set_cgi
  set_cgi-Sound p s l h =
      Sound-if _ (record s { cgi = record { cell_id = p.cell_id; lac = p.lac } }) s l h h

  -- What follows the change of the domain leaves the timed parts alone.
  marked-Sound :
      (p : RegistrationParams) (b : Bool) (s : RegistrationState) (l : Log)
      → Sound s l
      → Sound (set_cgi p (if b then record s { check_imsi = true } else s)) l
  marked-Sound p b s l h = set_cgi-Sound p _ l (Sound-if b (record s { check_imsi = true }) s l h h)

  with_domains :
      (s : RegistrationState) (l : Log) (csd psd eps : CellularRegistrationStatus)
      → Sound s l
      → IsReplayed env l csd
      → IsReplayed env l psd
      → IsReplayed env l eps
      → IsTimed env l s.registration_interventions s.reg_check_time s.reg_start_time
          s.imsi_check_time csd psd eps
  with_domains s l csd psd eps h hc hp he = record {
    intervened = h.intervened;
    reg_checked = h.reg_checked;
    reg_started = h.reg_started;
    imsi_checked = h.imsi_checked;
    csd_replayed = hc;
    psd_replayed = hp;
    eps_replayed = he;
  }

  pub reset_psd-Sound :
      (s : RegistrationState) (l : Log)
      → Sound s l
      → Sound (record s { psd = reset_status s.psd }) l
  reset_psd-Sound s l h =
      with_domains s l _ _ _ h h.csd_replayed (reset_status-IsReplayed env l s.psd) h.eps_replayed

  pub with_times :
      (s : RegistrationState) (l : Log) (i : ℕ) (a b c : Option ℕ)
      → Sound s l
      → (1 ≤ i) × (i ≤ 255)
      → IsPast env l a
      → IsPast env l b
      → IsPast env l c
      → IsTimed env l i a b c s.csd s.psd s.eps
  with_times s l i a b c h hi ha hb hc = record {
    intervened = hi;
    reg_checked = ha;
    reg_started = hb;
    imsi_checked = hc;
    csd_replayed = h.csd_replayed;
    psd_replayed = h.psd_replayed;
    eps_replayed = h.eps_replayed;
  }

  pub reset_statuses-Sound :
      (s : RegistrationState) (l : Log) → Sound s l → Sound (reset_statuses s) l
  unfolding reset_statuses
  reset_statuses-Sound s l h =
      with_domains s l _ _ _ h (reset_status-IsReplayed env l s.csd)
        (reset_status-IsReplayed env l s.psd) (reset_status-IsReplayed env l s.eps)

  pub IsSoundStatus-new : (l : Log) → Sound Registration.new l
  unfolding Registration.new replay is_rising
  IsSoundStatus-new l = record {
    intervened = omega arith;
    reg_checked = tt;
    reg_started = tt;
    imsi_checked = tt;
    csd_replayed = record { reports = []; replayed = refl; rising = refl; past = tt };
    psd_replayed = record { reports = []; replayed = refl; rising = refl; past = tt };
    eps_replayed = record { reports = []; replayed = refl; rising = refl; past = tt };
  }

  module _ (advancing : IsAdvancing env) where
    pub one_later : (s : RegistrationState) (l : Log) → Sound s l → Sound s (Event.clock_read ∷ l)
    one_later s l h =
        IsTimed-later env l _ _ _ _ _ _ _ _ (let a = advancing.step l in omega arith) h

    reported :
        (l : Log) (c : CellularRegistrationStatus) (status : Status)
        → IsReplayed env l c
        → IsReplayed env (Event.clock_read ∷ l) (set_status (env.now l) status c)
    reported l c status h = set_status-IsReplayed env l c status h (advancing.step l)

    compare_and_set_at-Sound :
        (kind : RegType) (p : RegistrationParams) (s : RegistrationState) (l : Log)
        → Sound s l
        → Sound (compare_and_set_at kind (env.now l) p s) (Event.clock_read ∷ l)
    unfolding compare_and_set_at report
    compare_and_set_at-Sound RegType.creg p s l h =
        let h' = one_later s l h in
        marked-Sound p _ (record s { csd = set_status (env.now l) p.status s.csd }) _
          (with_domains s _ _ _ _ h' (reported l s.csd p.status h.csd_replayed) h'.psd_replayed
            h'.eps_replayed)
    compare_and_set_at-Sound RegType.cgreg p s l h =
        let h' = one_later s l h in
        marked-Sound p _ (record s { psd = set_status (env.now l) p.status s.psd }) _
          (with_domains s _ _ _ _ h' h'.csd_replayed (reported l s.psd p.status h.psd_replayed)
            h'.eps_replayed)
    compare_and_set_at-Sound RegType.cereg p s l h =
        let h' = one_later s l h in
        marked-Sound p _ (record s { eps = set_status (env.now l) p.status s.eps }) _
          (with_domains s _ _ _ _ h' h'.csd_replayed h'.psd_replayed
            (reported l s.eps p.status h.eps_replayed))
    compare_and_set_at-Sound RegType.unknown p s l h = one_later s l h

    compare_and_set_kind-Sound :
        {E : Type 0} (kind : RegType) (p : RegistrationParams)
        → Keeps {E = E} Sound (compare_and_set_kind kind env p)
    unfolding compare_and_set_kind combinators
    compare_and_set_kind-Sound RegType.creg p = record {
      keeps = compare_and_set_at-Sound RegType.creg p;
    }
    compare_and_set_kind-Sound RegType.cgreg p = record {
      keeps = compare_and_set_at-Sound RegType.cgreg p;
    }
    compare_and_set_kind-Sound RegType.cereg p = record {
      keeps = compare_and_set_at-Sound RegType.cereg p;
    }
    compare_and_set_kind-Sound RegType.unknown p = record { keeps = λ s l h. h }

    pub compare_and_set-Sound :
        {E : Type 0} (p : RegistrationParams) → Keeps {E = E} Sound (compare_and_set env p)
    unfolding compare_and_set
    compare_and_set-Sound p = compare_and_set_kind-Sound p.reg_type p

    pub reset-Sound : {E : Type 0} → Keeps {E = E} Sound (reset env)
    unfolding reset combinators
    reset-Sound = record {
      keeps = λ s l h.
          let first = advancing.step l in
          let second = advancing.step (Event.clock_read ∷ l) in
          let h' =
            one_later (reset_statuses s) _
              (one_later (reset_statuses s) l (reset_statuses-Sound s l h)) in
          with_times (reset_statuses s) _ 1 _ _ Option.none h' (omega arith) (omega arith)
            (omega arith) tt;
    }
