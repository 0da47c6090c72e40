-- ===== src/Data/Keeping.antt =====
-- services/data/mod.rs: what the data context leaves alone of the network.
use fibocom_cellular_rs.Prelude.{ℕ, zero, suc, ◌≡◌, Bool, true, arith, none, some, Option}
use fibocom_cellular_rs.Command.{Bytes, Command, Psn, PacketSwitchedParam}
use fibocom_cellular_rs.Error.{NbError, data_of_network}
use fibocom_cellular_rs.Env.{Env, Log, Duration}
use fibocom_cellular_rs.Effect.{combinators}
use fibocom_cellular_rs.Effect.Laws.{
  Keeps, keeping, Keeps->>=, Keeps->>, Keeps-map_err, Keeps-if, Keeps-pure,
}
use fibocom_cellular_rs.BlockingTimer.{wait}
use fibocom_cellular_rs.BlockingTimer.Waiting.{Keeps-wait}
use fibocom_cellular_rs.Registration.{RegistrationState}
use fibocom_cellular_rs.Network.{Network, ContextState, send_internal, send, handle_urc}
use fibocom_cellular_rs.Text.Fitting.{string-Keeps}
use fibocom_cellular_rs.Data.Context.{
  Apn, ApnInfo, define_apn, define_context, attach_network, poll_attached, is_attached,
  activate_context, activate_context_upsd, activate_profile, map_profile, connect, set_context,
  set_config_if,
}

module _ (env : Env) (s0 : RegistrationState) where
  abbrev HasStatus : Network → Log → Type 0
  HasStatus n l = n.status ≡ s0

  send_internal-HasStatus : (c : Command) (b : Bool) → Keeps HasStatus (send_internal env c b)
  unfolding send_internal send handle_urc combinators
  send_internal-HasStatus c b = record { keeps = λ n l p. ground arith }

  wait-HasStatus : {E : Type 0} (d : Duration) → Keeps {E = E} HasStatus (wait env d)
  wait-HasStatus d = Keeps-wait env (λ n. n.status ≡ s0) d

  set_context-HasStatus : {E : Type 0} (c : ContextState) → Keeps {E = E} HasStatus (set_context c)
  unfolding combinators
  set_context-HasStatus c = record { keeps = λ n l p. p }

  ruleset status_rules = (keeping, send_internal-HasStatus, set_context-HasStatus, wait-HasStatus)

  map_profile-HasStatus : (cid p : ℕ) (c : _) → Keeps HasStatus (map_profile env cid p c)
  unfolding map_profile
  map_profile-HasStatus cid p (PacketSwitchedParam.map_profile c) = search status_rules depth 40
  map_profile-HasStatus cid p _ = search status_rules depth 40

  activate_profile-HasStatus : (cid p : ℕ) → Keeps HasStatus (activate_profile env cid p)
  unfolding activate_profile
  activate_profile-HasStatus cid p = search (status_rules, map_profile-HasStatus) depth 40

  activate_context-HasStatus : (cid p : ℕ) → Keeps HasStatus (activate_context env cid p)
  unfolding activate_context
  activate_context-HasStatus cid p = search (status_rules, activate_profile-HasStatus) depth 40

  set_config_if-HasStatus :
      (p n : ℕ) (param : Bytes → PacketSwitchedParam) (o : Option Bytes)
      → Keeps HasStatus (set_config_if env p n param o)
  set_config_if-HasStatus p n param none = search status_rules
  set_config_if-HasStatus p n param (some t) = search (status_rules, string-Keeps) depth 40

  activate_context_upsd-HasStatus :
      (p : ℕ) (a : ApnInfo) → Keeps HasStatus (activate_context_upsd env p a)
  unfolding activate_context_upsd
  activate_context_upsd-HasStatus p a = search (status_rules, set_config_if-HasStatus) depth 40

  define_apn-HasStatus : (cid : ℕ) (a : Apn) → Keeps HasStatus (define_apn env cid a)
  unfolding define_apn
  define_apn-HasStatus cid (Apn.given a) = search status_rules depth 40
  define_apn-HasStatus cid Apn.automatic = search status_rules depth 40

  pub define_context-HasStatus :
      (cid : ℕ) (a : ApnInfo) → Keeps HasStatus (define_context env cid a)
  unfolding define_context
  define_context-HasStatus cid a = search (status_rules, define_apn-HasStatus) depth 40

  poll_attached-HasStatus : (k : ℕ) → Keeps HasStatus (poll_attached env k)
  unfolding poll_attached
  poll_attached-HasStatus zero = search status_rules
  poll_attached-HasStatus (suc k) =
      Keeps->>=
        (Keeps-map_err (λ e. NbError.other (data_of_network e))
          (send_internal-HasStatus (Command.psn Psn.get_gprs_attached) true))
        (λ r.
          Keeps-if (is_attached r.state) (Keeps-pure tt)
            (Keeps->> (wait-HasStatus (Duration.secs 1)) (poll_attached-HasStatus k)))

  pub connect-HasStatus : (a : ApnInfo) → Keeps HasStatus (connect env a)
  unfolding connect attach_network
  connect-HasStatus a =
      search
        (
          status_rules, poll_attached-HasStatus, activate_context-HasStatus,
          activate_context_upsd-HasStatus,
        )
        depth 40
