-- ===== src/Network/Sound.antt =====
-- registration.rs, network.rs: what holds of the state at every moment, on a clock that moves on.
pub mod Replayed
pub mod Status
pub mod Actions
pub mod Events
use fibocom_cellular_rs.Prelude.{ℕ, ◌≤◌, ◌<◌, ◌≡◌, Bool, true, Option, [], ◌∷◌}
use fibocom_cellular_rs.Env.{Env, Log}
use fibocom_cellular_rs.Registration.{CellularRegistrationStatus, RegistrationState}
use fibocom_cellular_rs.Registration.Timing.{Reports, replay, is_rising}
use fibocom_cellular_rs.Network.State.{Network}

-- An instant that has been read from the clock.
abbrev pub IsPast : Env → Log → Option ℕ → Type 0
IsPast env l Option.none = Unit {0}
IsPast env l (Option.some t) = t < env.now l

abbrev pub ArePast : Env → Log → Reports → Type 0
ArePast env l [] = Unit {0}
ArePast env l ((t, status) ∷ older) = t < env.now l

-- The status of a domain is what some reports, one later than the other, have left.
pub record IsReplayed (env : Env) (l : Log) (c : CellularRegistrationStatus) : Type 0 where
  pub reports : Reports
  pub replayed : c ≡ replay reports
  pub rising : is_rising reports ≡ true
  pub past : ArePast env l reports

-- Of the parts of a registration state that count or that are timed.
pub record IsTimed (env : Env) (l : Log) (interventions : ℕ)
    (reg_check_time reg_start_time imsi_check_time : Option ℕ)
    (csd psd eps : CellularRegistrationStatus) : Type 0 where
  pub intervened : (1 ≤ interventions) × (interventions ≤ 255)
  pub reg_checked : IsPast env l reg_check_time
  pub reg_started : IsPast env l reg_start_time
  pub imsi_checked : IsPast env l imsi_check_time
  pub csd_replayed : IsReplayed env l csd
  pub psd_replayed : IsReplayed env l psd
  pub eps_replayed : IsReplayed env l eps

abbrev pub IsSoundStatus : Env → RegistrationState → Log → Type 0
IsSoundStatus env s l =
    IsTimed env l s.registration_interventions s.reg_check_time s.reg_start_time s.imsi_check_time
      s.csd s.psd s.eps

pub record IsSound (env : Env) (n : Network) (l : Log) : Type 0 where
  pub counted : n.at_tx.consecutive_timeouts ≤ 255
  pub status : IsSoundStatus env n.status l
