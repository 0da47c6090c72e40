-- ===== src/Network/Sound/Replayed.antt =====
-- registration.rs: a domain is what its reports have left, at any later time and after one more.
use fibocom_cellular_rs.Prelude.{ℕ, ◌≤◌, ◌<◌, ◌≡◌, refl, true, Option, [], ◌∷◌, arith}
use fibocom_cellular_rs.Env.{Env, Event, Log}
use fibocom_cellular_rs.Registration.{CellularRegistrationStatus}
use fibocom_cellular_rs.Registration.Domain.{Status, set_status, reset_status}
use fibocom_cellular_rs.Registration.Timing.{Reports, replay, is_rising}
use fibocom_cellular_rs.Network.Sound.{IsPast, ArePast, IsReplayed, IsTimed}

module _ (env : Env) where
  pub IsPast-later :
      (l l' : Log) → env.now l ≤ env.now l' → (o : Option ℕ) → IsPast env l o → IsPast env l' o
  IsPast-later l l' h Option.none p = tt
  IsPast-later l l' h (Option.some t) p = omega arith

  pub ArePast-later :
      (l l' : Log) → env.now l ≤ env.now l' → (rs : Reports) → ArePast env l rs → ArePast env l' rs
  ArePast-later l l' h [] p = tt
  ArePast-later l l' h ((t, status) ∷ older) p = omega arith

  pub IsReplayed-later :
      (l l' : Log) (c : CellularRegistrationStatus)
      → env.now l ≤ env.now l'
      → IsReplayed env l c
      → IsReplayed env l' c
  IsReplayed-later l l' c h p = record {
    reports = p.reports;
    replayed = p.replayed;
    rising = p.rising;
    past = ArePast-later l l' h p.reports p.past;
  }

  pub IsTimed-later :
      (l l' : Log) (i : ℕ) (a b c : Option ℕ) (csd psd eps : CellularRegistrationStatus)
      → env.now l ≤ env.now l'
      → IsTimed env l i a b c csd psd eps
      → IsTimed env l' i a b c csd psd eps
  IsTimed-later l l' i a b c csd psd eps h p = record {
    intervened = p.intervened;
    reg_checked = IsPast-later l l' h a p.reg_checked;
    reg_started = IsPast-later l l' h b p.reg_started;
    imsi_checked = IsPast-later l l' h c p.imsi_checked;
    csd_replayed = IsReplayed-later l l' csd h p.csd_replayed;
    psd_replayed = IsReplayed-later l l' psd h p.psd_replayed;
    eps_replayed = IsReplayed-later l l' eps h p.eps_replayed;
  }

  -- A domain without a report.
  pub reset_status-IsReplayed :
      (l : Log) (c : CellularRegistrationStatus) → IsReplayed env l (reset_status c)
  unfolding reset_status replay is_rising
  reset_status-IsReplayed l c = record { reports = []; replayed = refl; rising = refl; past = tt }

  -- One more report, at the time of the clock.
  pub set_status-IsReplayed :
      (l : Log) (c : CellularRegistrationStatus) (status : Status)
      → IsReplayed env l c
      → env.now l < env.now (Event.clock_read ∷ l)
      → IsReplayed env (Event.clock_read ∷ l) (set_status (env.now l) status c)
  unfolding replay is_rising
  set_status-IsReplayed l c status p h = record {
    reports = (env.now l, status) ∷ p.reports;
    replayed = rw p.replayed refl;
    rising = rises p.reports p.rising p.past;
    past = h;
  }
    where
      rises :
          (rs : Reports)
          → is_rising rs ≡ true
          → ArePast env l rs
          → is_rising ((env.now l, status) ∷ rs) ≡ true
      rises [] r a = refl
      rises ((t, s) ∷ older) r a = ground arith
