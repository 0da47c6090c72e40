-- ===== src/Network/Sound/Actions.antt =====
-- network.rs: the single actions on the network's state keep it sound.
use fibocom_cellular_rs.Prelude.{ℕ, suc, ◌≤◌, Bool, Option, none, some, ◌⊎◌, inl, inr, ◌∷◌, arith}
use fibocom_cellular_rs.Command.{Command, Response, Urc}
use fibocom_cellular_rs.Error.{NetworkError, AtError}
use fibocom_cellular_rs.Env.{Env, Event, Log, IsMonotone, IsAdvancing}
use fibocom_cellular_rs.Effect.{M, Outcome, ok, err, now, ◌>>=◌, modify, combinators}
use fibocom_cellular_rs.Effect.Laws.{Keeps, keeping}
use fibocom_cellular_rs.BlockingTimer.Clock.{IsSince}
use fibocom_cellular_rs.Registration.{
  RegistrationState, RegType, RegistrationParams, ConnectionState, compare_and_set, reset,
  reset_statuses, set_connection_state,
}
use fibocom_cellular_rs.Registration.Domain.{reset_status}
use fibocom_cellular_rs.Registration.State.{compare_and_set_kind}
use fibocom_cellular_rs.Network.State.{
  Network, AtTx, network_error, count_timeout, send, on_at_tx, on_status, modify_status,
}
use fibocom_cellular_rs.Network.Urcs.{apply_urc, send_internal, handle_urc}
use fibocom_cellular_rs.Network.Intervene.{count_intervention}
use fibocom_cellular_rs.Network.Sound.Replayed.{IsTimed-later}
use fibocom_cellular_rs.Network.Sound.{IsSoundStatus, IsSound}
use fibocom_cellular_rs.Network.Sound.Status.{
  Sound-if, with_times, reset_statuses-Sound, reset_psd-Sound, compare_and_set-Sound, reset-Sound,
}

-- Sound at a moment not before the instant `t`.
abbrev pub SoundSince : Env → ℕ → Network → Log → Type 0
SoundSince env t n l = IsSound env n l × (t ≤ env.now l)

module _ (env : Env) (advancing : IsAdvancing env) (monotone : IsMonotone env) (t : ℕ) where
  pub later :
      (n : Network) (e : Event) (l : Log) → SoundSince env t n l → SoundSince env t n (e ∷ l)
  later n e l p =
      let m = monotone.mono e l in
      (
        record {
          counted = p.0.counted;
          status = IsTimed-later env l (e ∷ l) _ _ _ _ _ _ _ m p.0.status;
        },
        ground arith,
      )

  Keeps-on_status :
      {E A : Type 0} {m : M RegistrationState E A}
      → Keeps (IsSoundStatus env) m
      → Keeps {S = RegistrationState} (IsSince env t) m
      → Keeps (SoundSince env t) (on_status m)
  Keeps-on_status k since = record {
    keeps = λ n l p. (
      record { counted = p.0.counted; status = k.keeps n.status l p.0.status },
      since.keeps n.status l p.1,
    );
  }

  pub handle_urc-Sound : Keeps (SoundSince env t) (handle_urc env)
  unfolding handle_urc
  handle_urc-Sound = record { keeps = λ n l p. go n l (env.network_urc l) (later n _ l p) }
    where
      go :
          (n : Network) (l : Log) (o : Option Urc)
          → SoundSince env t n (Event.network_urc_polled ∷ l)
          → let r : Outcome NetworkError (Unit {0}) × Network × Log = elim o [
            | none ↦ (ok tt, n, Event.network_urc_polled ∷ l)
            | some urc ↦ (
              ok tt,
              record n { context_state = apply_urc urc n.context_state },
              Event.network_urc_polled ∷ l,
            )
          ] in
            SoundSince env t r.1 r.2
      go n l none p = p
      go n l (some urc) p = (record { counted = p.0.counted; status = p.0.status }, p.1)

  counted_lem :
      (c : Command) (e : AtError) (tx : AtTx)
      → tx.consecutive_timeouts ≤ 255
      → (count_timeout env c e tx).consecutive_timeouts ≤ 255
  unfolding count_timeout
  counted_lem c e tx h = ground arith

  send-Sound : (c : Command) → Keeps (SoundSince env t) (on_at_tx (send env c))
  unfolding send
  send-Sound c = record { keeps = λ n l p. go n l (env.send_retry l c) (later n _ l p) }
    where
      go :
          (n : Network) (l : Log) (o : AtError ⊎ Response c)
          → SoundSince env t n (Event.sent c ∷ l)
          → let r : Outcome NetworkError (Response c) × AtTx × Log = elim o [
            | inl e ↦ (err (network_error e), count_timeout env c e n.at_tx, Event.sent c ∷ l)
            | inr res ↦ (ok res, record n.at_tx { consecutive_timeouts = 0 }, Event.sent c ∷ l)
          ] in
            SoundSince env t (record n { at_tx = r.1 }) r.2
      go n l (inl e) p =
          (record { counted = counted_lem c e n.at_tx p.0.counted; status = p.0.status }, p.1)
      go n l (inr res) p = (record { counted = omega arith; status = p.0.status }, p.1)

  pub send_internal-Sound :
      (c : Command) (b : Bool) → Keeps (SoundSince env t) (send_internal env c b)
  unfolding send_internal
  send_internal-Sound c b = search (keeping, handle_urc-Sound, send-Sound) depth 40

  pub modify_status-Sound :
      {E : Type 0} (f : RegistrationState → RegistrationState)
      → ((s : RegistrationState) (l : Log)
          → t ≤ env.now l
          → IsSoundStatus env s l
          → IsSoundStatus env (f s) l)
      → Keeps {E = E} (SoundSince env t) (modify_status f)
  unfolding modify
  modify_status-Sound f h = record {
    keeps = λ n l p. (record { counted = p.0.counted; status = h n.status l p.1 p.0.status }, p.1);
  }

  reset-IsSince : {E : Type 0} → Keeps {E = E} (IsSince env t) (reset env)
  unfolding reset combinators
  reset-IsSince = record {
    keeps = λ s l p.
        let first = advancing.step l in
        let second = advancing.step (Event.clock_read ∷ l) in ground arith;
  }

  compare_and_set_kind-IsSince :
      {E : Type 0} (kind : RegType) (p : RegistrationParams)
      → Keeps {E = E} (IsSince env t) (compare_and_set_kind kind env p)
  unfolding compare_and_set_kind combinators
  compare_and_set_kind-IsSince RegType.unknown p = record { keeps = λ s l h. h }
  compare_and_set_kind-IsSince RegType.creg p = record {
    keeps = λ s l h. let a = advancing.step l in ground arith;
  }
  compare_and_set_kind-IsSince RegType.cgreg p = record {
    keeps = λ s l h. let a = advancing.step l in ground arith;
  }
  compare_and_set_kind-IsSince RegType.cereg p = record {
    keeps = λ s l h. let a = advancing.step l in ground arith;
  }

  pub compare_and_set-SoundSince :
      {E : Type 0} (p : RegistrationParams)
      → Keeps {E = E} (SoundSince env t) (on_status (compare_and_set env p))
  unfolding compare_and_set
  compare_and_set-SoundSince p =
      Keeps-on_status (compare_and_set-Sound env advancing p)
        (compare_and_set_kind-IsSince p.reg_type p)

  pub reset-SoundSince : {E : Type 0} → Keeps {E = E} (SoundSince env t) (on_status (reset env))
  reset-SoundSince = Keeps-on_status (reset-Sound env advancing) reset-IsSince

  pub reset_statuses-SoundSince :
      {E : Type 0} → Keeps {E = E} (SoundSince env t) (modify_status reset_statuses)
  reset_statuses-SoundSince = modify_status-Sound _ (λ s l _. reset_statuses-Sound env s l)

  pub reset_psd-SoundSince :
      {E : Type 0}
      → Keeps {E = E} (SoundSince env t) (modify_status λ s. record s { psd = reset_status s.psd })
  reset_psd-SoundSince = modify_status-Sound _ (λ s l _. reset_psd-Sound env s l)

  pub count_intervention-SoundSince :
      {E : Type 0} → Keeps {E = E} (SoundSince env t) (modify_status count_intervention)
  unfolding count_intervention
  count_intervention-SoundSince = modify_status-Sound _ λ s l _ h.
      with_times env s l _ _ _ _ h (ground arith) h.reg_checked h.reg_started h.imsi_checked

  pub set_connection_state-SoundSince :
      {E : Type 0} (c : ConnectionState)
      → Keeps {E = E} (SoundSince env t) (modify_status (set_connection_state c))
  unfolding set_connection_state
  set_connection_state-SoundSince c =
      modify_status-Sound _ λ s l _ h. Sound-if env _ s (record s { conn_state = c }) l h h

  pub zero_timeouts-SoundSince :
      Keeps {E = NetworkError}
        (SoundSince env t)
        (modify λ (m : Network). record m { at_tx = record { consecutive_timeouts = 0 } })
  unfolding modify
  zero_timeouts-SoundSince = record {
    keeps = λ n l p. (record { counted = omega arith; status = p.0.status }, p.1);
  }

-- What follows a reading of the clock may rely on its time.
pub Keeps-now :
    (env : Env) (t : ℕ)
    → IsAdvancing env
    → {E A : Type 0} {f : ℕ → M Network E A} → ((ts : ℕ) → Keeps (SoundSince env (suc ts)) (f ts))
    → Keeps (SoundSince env t) (now env >>= f)
unfolding combinators
Keeps-now env t advancing h = record {
  keeps = λ n l p.
      let step = advancing.step l in
      let status =
        IsTimed-later env l (Event.clock_read ∷ l) _ _ _ _ _ _ _ (omega arith) p.0.status in
      let k =
        (h (env.now l)).keeps n (Event.clock_read ∷ l)
          (record { counted = p.0.counted; status = status }, step) in
      (k.0, omega arith);
}
