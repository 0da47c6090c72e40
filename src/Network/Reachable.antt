-- ===== src/Network/Reachable.antt =====
-- network.rs: the states that the driver can reach.
use fibocom_cellular_rs.Prelude.{◌≤◌, ◌≡◌, ◌≢◌, sym, subst, Bool, true, ◌∷◌, arith}
use fibocom_cellular_rs.Command.{Command}
use fibocom_cellular_rs.Error.{NetworkError}
use fibocom_cellular_rs.Env.{Env, Event, Log, IsMonotone, IsAdvancing}
use fibocom_cellular_rs.Effect.{M}
use fibocom_cellular_rs.Registration.{
  ConnectionState, CellularRegistrationStatus, reset, set_connection_state,
}
use fibocom_cellular_rs.Registration.Timing.{Reports, replay, is_rising}
use fibocom_cellular_rs.Network.State.{
  Network, ContextState, new, on_status, modify_status, reset_reg_time,
}
use fibocom_cellular_rs.Network.Urcs.{send_internal}
use fibocom_cellular_rs.Network.Watch.{update_registration}
use fibocom_cellular_rs.Network.Events.{process_events}
use fibocom_cellular_rs.Network.Sound.{IsPast, IsReplayed}
use fibocom_cellular_rs.Network.Sound.Actions.{
  SoundSince, send_internal-Sound, reset-SoundSince, set_connection_state-SoundSince, later,
}
use fibocom_cellular_rs.Network.Sound.Events.{
  update_registration-Sound, reset_reg_time-Sound, process_events-Sound,
}
use fibocom_cellular_rs.Network.Sound.Status.{IsSoundStatus-new}

abbrev pub World : Type 0
World = Network × Log

-- What an operation leaves behind, whatever its outcome is.
abbrev pub after : {E A : Type 0} → M Network E A → World → World
after m w = let r = m w.0 w.1 in (r.1, r.2)

-- From certain worlds, by the operations that the device and its data service call on their
-- network, in any order and whatever their outcomes are.
pub data ReachableFrom (env : Env) (from : World → Type 0) : World → Type 0 where
  begin : (w : World) → from w → ReachableFrom env from w
  -- Something that leaves the network alone: a pin, the sockets' messages, the clock.
  elsewhere :
      (e : Event) (w : World) → ReachableFrom env from w → ReachableFrom env from (w.0, e ∷ w.1)
  -- An assignment to `context_state`.
  enter_context :
      (c : ContextState) (w : World)
      → ReachableFrom env from w
      → ReachableFrom env from (record w.0 { context_state = c }, w.1)
  -- `set_connection_state`, which nothing calls for `Disconnected`.
  connection :
      (c : ConnectionState) (w : World)
      → c ≢ ConnectionState.disconnected
      → ReachableFrom env from w
      → ReachableFrom env from (after {E = NetworkError} (modify_status (set_connection_state c)) w)
  sending :
      (c : Command) (check_urc : Bool) (w : World)
      → ReachableFrom env from w
      → ReachableFrom env from (after (send_internal env c check_urc) w)
  updating :
      (w : World)
      → ReachableFrom env from w
      → ReachableFrom env from (after (update_registration env) w)
  resetting :
      (w : World)
      → ReachableFrom env from w
      → ReachableFrom env from (after {E = NetworkError} (on_status (reset env)) w)
  resetting_time :
      (w : World)
      → ReachableFrom env from w
      → ReachableFrom env from (after (reset_reg_time env {E = NetworkError}) w)
  events :
      (w : World) → ReachableFrom env from w → ReachableFrom env from (after (process_events env) w)

-- The state of `Network::new`, with which `Device::new` begins, at any time.
abbrev pub IsNew : World → Type 0
IsNew w = w.0 ≡ new (record { consecutive_timeouts = 0 })

-- What the driver reaches.
abbrev pub Reachable : Env → World → Type 0
Reachable env = ReachableFrom env IsNew

module _ (env : Env) (advancing : IsAdvancing env) (monotone : IsMonotone env) where
  Reachable-IsSound : {w : World} → Reachable env w → SoundSince env 0 w.0 w.1
  unfolding new
  Reachable-IsSound (begin w e) =
      subst (λ n. SoundSince env 0 n w.1) (sym e)
        (record { counted = omega arith; status = IsSoundStatus-new env w.1 }, omega arith)
  Reachable-IsSound (elsewhere e w r) = later env advancing monotone 0 _ e _ (Reachable-IsSound r)
  Reachable-IsSound (enter_context c w r) =
      let h = Reachable-IsSound r in (record { counted = h.0.counted; status = h.0.status }, h.1)
  Reachable-IsSound (connection c w d r) =
      (set_connection_state-SoundSince env advancing monotone 0 c).keeps _ _ (Reachable-IsSound r)
  Reachable-IsSound (sending c b w r) =
      (send_internal-Sound env advancing monotone 0 c b).keeps _ _ (Reachable-IsSound r)
  Reachable-IsSound (updating w r) =
      (update_registration-Sound env advancing monotone 0).keeps _ _ (Reachable-IsSound r)
  Reachable-IsSound (resetting w r) =
      (reset-SoundSince env advancing monotone 0).keeps _ _ (Reachable-IsSound r)
  Reachable-IsSound (resetting_time w r) =
      (reset_reg_time-Sound env advancing monotone 0).keeps _ _ (Reachable-IsSound r)
  Reachable-IsSound (events w r) =
      (process_events-Sound env advancing monotone 0).keeps _ _ (Reachable-IsSound r)

-- The abstract view of a domain: reports, newest first, one later than the other.
abbrev pub Replays : CellularRegistrationStatus → Type 0
Replays c = (rs : Reports) × (c ≡ replay rs) × (is_rising rs ≡ true)

Replays-IsReplayed :
    (env : Env) (l : Log) (c : CellularRegistrationStatus) → IsReplayed env l c → Replays c
Replays-IsReplayed env l c h = (h.reports, h.replayed, h.rising)

-- On a clock that moves on at every reading and never goes back: in every state that the driver
-- reaches, the counter of timeouts and the number of interventions fit into a byte, an intervention
-- is always counted from 1, and every instant that is kept for a check lies before the present.
pub Reachable-bounds :
    (env : Env)
    → IsAdvancing env
    → IsMonotone env
    → (n : Network) (l : Log) → Reachable env (n, l)
    → (n.at_tx.consecutive_timeouts ≤ 255)
      × (1 ≤ n.status.registration_interventions)
      × (n.status.registration_interventions ≤ 255)
      × IsPast env l n.status.reg_check_time
      × IsPast env l n.status.reg_start_time
      × IsPast env l n.status.imsi_check_time
Reachable-bounds env advancing monotone n l r =
    let h = (Reachable-IsSound env advancing monotone r).0 in
    (
      h.counted, h.status.intervened.0, h.status.intervened.1, h.status.reg_checked,
      h.status.reg_started, h.status.imsi_checked,
    )

-- On a clock that moves on at every reading and never goes back: in every state that the driver
-- reaches, each of the three domains is what a sequence of reports at strictly rising times leaves
-- of a new status.
pub Reachable-Replays :
    (env : Env)
    → IsAdvancing env
    → IsMonotone env
    → (n : Network) (l : Log) → Reachable env (n, l)
    → Replays n.status.csd × Replays n.status.psd × Replays n.status.eps
Reachable-Replays env advancing monotone n l r =
    let h = (Reachable-IsSound env advancing monotone r).0 in
    (
      Replays-IsReplayed env l n.status.csd h.status.csd_replayed,
      Replays-IsReplayed env l n.status.psd h.status.psd_replayed,
      Replays-IsReplayed env l n.status.eps h.status.eps_replayed,
    )
