-- ===== src/Device/Ending/Polling.antt =====
-- power.rs: whether the module is on, and waiting for it.
use fibocom_cellular_rs.Prelude.{
  ℕ, zero, suc, Bool, true, false, ◌≡◌, ◌≤◌, ◌<◌, ◌+◌, ◌∷◌, arith, Option, none, some,
}
use fibocom_cellular_rs.Command.{Command}
use fibocom_cellular_rs.Error.{DeviceError}
use fibocom_cellular_rs.Env.{Env, Event, Log, Duration, ticks, IsTimely}
use fibocom_cellular_rs.Effect.{M, combinators}
use fibocom_cellular_rs.Effect.Laws.{Keeps, keeping}
use fibocom_cellular_rs.Effect.Ends.{Ends, ending, Ends-pure}
use fibocom_cellular_rs.BlockingTimer.{wait}
use fibocom_cellular_rs.BlockingTimer.Clock.{
  IsSince, EndsSince, EndsSince-Ends, EndsSince-if, EndsSince->>=, EndsSince->>, EndsSince-now,
  EndsSince-then, EndsSince-later, Ends-EndsSince, wait-IsSince,
}
use fibocom_cellular_rs.BlockingTimer.Waiting.{wait-Ends}
use fibocom_cellular_rs.Network.{send_ignore_timeout, Network}
use fibocom_cellular_rs.Network.Ending.{on_at_tx-Ends}
use fibocom_cellular_rs.Device.State.{PowerState, power_state_eq, Device, on_network}
use fibocom_cellular_rs.Device.Power.{
  is_within, poke, is_alive, read_vint, power_state_by, power_state, poll_power_state,
  wait_power_state,
}

pub Ends-on_network : {S E A : Type 0} {m : M Network E A} → Ends m → Ends (on_network {S = S} m)
unfolding on_network
Ends-on_network h = record { ends = λ d l x e. h.ends d.network l x e }

late :
    (env : Env) (timeout : Duration) (start ts : ℕ)
    → is_within env timeout start ts ≡ true
    → ts < start + ticks env timeout
unfolding is_within
late env timeout start ts h = ground arith

module _ (env : Env) {S : Type 0} where
  poke-Ends : (n : ℕ) (e : DeviceError) → Ends (poke env {S = S} n e)
  unfolding poke
  poke-Ends zero e = search ending
  poke-Ends (suc n) e =
      let ih = poke-Ends n in
      let at = on_at_tx-Ends env Command.at in search (ending, Ends-on_network) depth 40

  pub is_alive-Ends : (n : ℕ) → Ends (is_alive env {S = S} n)
  unfolding is_alive
  is_alive-Ends n = poke-Ends n _

  read_vint-Ends : (f : Log → Option Bool) → Ends (read_vint env {S = S} f)
  unfolding read_vint
  read_vint-Ends f = record { ends = λ d l x h. ground arith }

  power_state_by-Ends : (o : Option (Log → Option Bool)) → Ends (power_state_by env {S = S} o)
  unfolding power_state_by
  power_state_by-Ends none = search (ending, is_alive-Ends) depth 40
  power_state_by-Ends (some f) = read_vint-Ends f

  pub power_state-Ends : Ends (power_state env {S = S})
  unfolding power_state
  power_state-Ends = power_state_by-Ends env.vint_pin

  module _ (timely : IsTimely env) where
    poke-IsSince : (t n : ℕ) (e : DeviceError) → Keeps (IsSince {A = Device S} env t) (poke env n e)
    unfolding poke send_ignore_timeout on_network combinators
    poke-IsSince t zero e = record { keeps = λ s l p. p }
    poke-IsSince t (suc n) e = record {
      keeps = λ s l p.
          let mono = timely.monotone.mono (Event.sent Command.at) l in
          let ih = λ (d : Device S) (e : DeviceError).
            (poke-IsSince t n e).keeps d (Event.sent Command.at ∷ l) in
          grind arith;
    }

    power_state_by-IsSince :
        (t : ℕ) (o : Option (Log → Option Bool))
        → Keeps (IsSince {A = Device S} env t) (power_state_by env o)
    unfolding power_state_by is_alive read_vint
    power_state_by-IsSince t none =
        let poked = poke-IsSince t 2 DeviceError.baud_detection in search keeping depth 40
    power_state_by-IsSince t (some f) = record {
      keeps = λ s l p. let mono = timely.monotone.mono Event.vint_read l in ground arith;
    }

    power_state-IsSince : (t : ℕ) → Keeps (IsSince {A = Device S} env t) (power_state env)
    unfolding power_state
    power_state-IsSince t = power_state_by-IsSince t env.vint_pin

    pause-Ends : Ends {S = Device S} {E = DeviceError} (wait env (Duration.millis 5))
    pause-Ends = wait-Ends env _ timely.advancing (let limit = timely.limit in omega arith)

    too_late :
        {A : Type 0} {m : M (Device S) DeviceError A} (timeout : Duration) (start ts : ℕ)
        → start + ticks env timeout ≤ ts
        → is_within env timeout start ts ≡ true
        → EndsSince env (suc ts) m
    too_late timeout start ts h within =
        let w = late env timeout start ts within in record { ends = λ s l x q e. omega arith }

    poll_power_state-EndsSince :
        (expected : PowerState) (timeout : Duration) (start fuel t : ℕ)
        → start + ticks env timeout ≤ t + fuel
        → EndsSince env t (poll_power_state env {S = S} (suc fuel) expected timeout start)
    unfolding poll_power_state
    poll_power_state-EndsSince expected timeout start zero t h =
        EndsSince-now env t timely.advancing λ ts p.
          EndsSince-if env (suc ts) (is_within env timeout start ts)
            (too_late timeout start ts (omega arith))
            (λ _. EndsSince-Ends env (suc ts) (Ends-pure false))
    poll_power_state-EndsSince expected timeout start (suc fuel) t h =
        EndsSince-now env t timely.advancing λ ts p.
          EndsSince-if env (suc ts) (is_within env timeout start ts)
            (λ within.
              EndsSince->>= env (suc ts) power_state-Ends (power_state-IsSince (suc ts)) λ state.
                EndsSince-if env (suc ts) (power_state_eq state expected)
                  (λ _. EndsSince-Ends env (suc ts) (Ends-pure true))
                  (λ _.
                    EndsSince->> env (suc ts) pause-Ends
                      (wait-IsSince env timely.monotone (suc ts) (Duration.millis 5))
                      (poll_power_state-EndsSince expected timeout start fuel (suc ts)
                        (omega arith))))
            (λ _. EndsSince-Ends env (suc ts) (Ends-pure false))

    poll_power_state-Ends :
        (limit : ℕ) (expected : PowerState) (timeout : Duration) (start : ℕ)
        → ticks env timeout < limit
        → EndsSince env start (poll_power_state env {S = S} limit expected timeout start)
    poll_power_state-Ends zero expected timeout start h = record { ends = λ s l x q e. omega arith }
    poll_power_state-Ends (suc limit) expected timeout start h =
        poll_power_state-EndsSince expected timeout start limit start (omega arith)

    pub wait_power_state-Ends :
        (expected : PowerState) (timeout : Duration)
        → ticks env timeout < env.spin_limit
        → Ends (wait_power_state env {S = S} expected timeout)
    unfolding wait_power_state
    wait_power_state-Ends expected timeout h = Ends-EndsSince env (
        EndsSince-now env 0 timely.advancing λ start p.
          EndsSince-then env (suc start)
            (EndsSince-later env (poll_power_state-Ends env.spin_limit expected timeout start h))
            (λ res. search ending))
