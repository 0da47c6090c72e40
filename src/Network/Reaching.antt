-- ===== src/Network/Reaching.antt =====
-- network.rs: the operations that the device and the data service call reach what they leave
-- behind.
use fibocom_cellular_rs.Prelude.{ℕ, zero, suc, Bool, true, false, if◌then◌else◌, ◌∷◌, ◌≢◌}
use fibocom_cellular_rs.Command.{Command}
use fibocom_cellular_rs.Env.{Env, Event, Log, Duration}
use fibocom_cellular_rs.Effect.{Outcome, now, emit, modify, combinators}
use fibocom_cellular_rs.Effect.Laws.{Keeps}
use fibocom_cellular_rs.BlockingTimer.{wait_until, wait}
use fibocom_cellular_rs.Registration.{ConnectionState, reset, set_connection_state}
use fibocom_cellular_rs.Network.State.{
  Network, ContextState, send, send_ignore_timeout, on_at_tx, on_status, modify_status,
  reset_reg_time,
}
use fibocom_cellular_rs.Network.Urcs.{send_internal}
use fibocom_cellular_rs.Network.Watch.{update_registration}
use fibocom_cellular_rs.Network.Events.{process_events}
use fibocom_cellular_rs.Network.Reachable.{
  World, ReachableFrom, elsewhere, enter_context, connection, sending, updating, resetting,
  resetting_time, events,
}

-- A part of a larger state is a network that the driver reaches.
abbrev pub IsReached : {S : Type 0} → Env → (World → Type 0) → (S → Network) → S → Log → Type 0
IsReached env from part s l = ReachableFrom env from (part s, l)

abbrev pub whole : Network → Network
whole n = n

-- What holds on, whatever else happens.
pub record Endures {S : Type 0} (P : S → Log → Type 0) : Type 0 where
  pub endures : (e : Event) (s : S) (l : Log) → P s l → P s (e ∷ l)

pub IsReached-Endures :
    (env : Env) (from : World → Type 0) {S : Type 0} (part : S → Network)
    → Endures (IsReached env from part)
IsReached-Endures env from part = record { endures = λ e s l r. elsewhere e (part s, l) r }

-- What leaves the state alone.
pub emit-Keeps :
    {S E : Type 0} {P : S → Log → Type 0} (e : Event) → Endures P → Keeps {E = E} P (emit e)
emit-Keeps e h = record { keeps = λ s l p. h.endures e s l p }

if-holds :
    {S E : Type 0} (P : S → Log → Type 0) (b : Bool) (x y : Outcome E (Unit {0}) × S × Log)
    → P x.1 x.2
    → P y.1 y.2
    → let r = (if b then x else y) in P r.1 r.2
if-holds P true x y hx hy = hx
if-holds P false x y hx hy = hy

module _ (env : Env) {S : Type 0} {P : S → Log → Type 0} where
  pub now-Keeps : {E : Type 0} → Endures P → Keeps {E = E} P (now env)
  now-Keeps h = record { keeps = λ s l p. h.endures Event.clock_read s l p }

  wait_until-holds :
      (E : Type 0) (fuel e : ℕ) (s : S) (l : Log)
      → Endures P
      → P s l
      → P (wait_until env {E = E} fuel e s l).1 (wait_until env {E = E} fuel e s l).2
  unfolding wait_until
  wait_until-holds E zero e s l h p = p
  wait_until-holds E (suc fuel) e s l h p =
      let p' = h.endures Event.clock_read s l p in
      let ih = wait_until-holds E fuel e s (Event.clock_read ∷ l) h p' in if-holds P _ _ _ p' ih

  pub wait-Keeps : {E : Type 0} (d : Duration) → Endures P → Keeps {E = E} P (wait env d)
  unfolding wait combinators
  wait-Keeps {E} d h = record {
    keeps = λ s l p.
        wait_until-holds E env.spin_limit _ s (Event.clock_read ∷ l) h
          (h.endures Event.clock_read s l p);
  }

module _ (env : Env) (from : World → Type 0) where
  pub send_internal-IsReached :
      (c : Command) (b : Bool) → Keeps (IsReached env from whole) (send_internal env c b)
  send_internal-IsReached c b = record { keeps = λ n l r. sending c b (n, l) r }

  pub send_ignore_timeout-IsReached :
      (c : Command) → Keeps (IsReached env from whole) (on_at_tx (send_ignore_timeout env c))
  unfolding send_ignore_timeout send_internal send combinators
  send_ignore_timeout-IsReached c = record { keeps = λ n l r. sending c false (n, l) r }

  pub set_context-IsReached :
      {E : Type 0} (c : ContextState)
      → Keeps {E = E} (IsReached env from whole) (modify λ n. record n { context_state = c })
  unfolding modify
  set_context-IsReached c = record { keeps = λ n l r. enter_context c (n, l) r }

  pub set_connection_state-IsReached :
      {E : Type 0} (c : ConnectionState)
      → c ≢ ConnectionState.disconnected
      → Keeps {E = E} (IsReached env from whole) (modify_status (set_connection_state c))
  unfolding modify
  set_connection_state-IsReached c d = record { keeps = λ n l r. connection c (n, l) d r }

  pub update_registration-IsReached : Keeps (IsReached env from whole) (update_registration env)
  update_registration-IsReached = record { keeps = λ n l r. updating (n, l) r }

  pub reset-IsReached :
      {E : Type 0} → Keeps {E = E} (IsReached env from whole) (on_status (reset env))
  unfolding reset combinators
  reset-IsReached = record { keeps = λ n l r. resetting (n, l) r }

  pub reset_reg_time-IsReached :
      {E : Type 0} → Keeps {E = E} (IsReached env from whole) (reset_reg_time env)
  unfolding reset_reg_time combinators
  reset_reg_time-IsReached = record { keeps = λ n l r. resetting_time (n, l) r }

  pub process_events-IsReached : Keeps (IsReached env from whole) (process_events env)
  process_events-IsReached = record { keeps = λ n l r. events (n, l) r }
