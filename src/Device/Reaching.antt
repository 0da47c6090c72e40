-- ===== src/Device/Reaching.antt =====
-- power.rs, client.rs: what all operations of a device keep.
pub mod Spinning
pub mod Reached
pub mod Attended
use fibocom_cellular_rs.Prelude.{
  ℕ, zero, suc, Bool, true, false, Option, none, some, if◌then◌else◌, ◌∷◌, ◌≢◌, arith,
}
use fibocom_cellular_rs.Command.{
  Command, MobileControl, Functionality, ResetMode, SystemFeatures, FsFactoryRestoreType,
  NvmFactoryRestoreType,
}
use fibocom_cellular_rs.Error.{DeviceError, NetworkError, GenericError}
use fibocom_cellular_rs.Env.{Env, Event, Log, Duration}
use fibocom_cellular_rs.Effect.{M, Outcome, ok, err, modify}
use fibocom_cellular_rs.Effect.Laws.{Keeps, keeping}
use fibocom_cellular_rs.Network.State.{Network, ContextState}
use fibocom_cellular_rs.Network.Reachable.{World, ReachableFrom, elsewhere, enter_context}
use fibocom_cellular_rs.Network.Reaching.{
  IsReached, whole, Endures, emit-Keeps, now-Keeps, wait-Keeps, send_internal-IsReached,
  send_ignore_timeout-IsReached, set_connection_state-IsReached, update_registration-IsReached,
  reset-IsReached, reset_reg_time-IsReached, process_events-IsReached,
}
use fibocom_cellular_rs.Sockets.{SocketSetOps}
use fibocom_cellular_rs.Device.State.{
  PowerState, State, Device, on_network, set_power_state, set_state, set_context_state,
}
use fibocom_cellular_rs.Device.Power.{
  poke, is_alive, read_vint, power_state_by, power_state, poll_power_state, wait_power_state,
  soft_reset, hard_reset_then, pulse_power_on, power_on, hard_reset, hard_power_off,
}

-- What the operations of a device keep, if the registration's start keeps it: it holds on when the
-- network moves as the driver moves it, when the module is found on or off, when the device is less
-- than fully initialized, and when the sockets change.
pub record IsDeviceInvariant (env : Env) (from : World → Type 0) {S : Type 0}
    (P : Device S → Log → Type 0) : Type 0 where
  pub moved :
      (d : Device S) (n : Network) (l l' : Log)
      → (ReachableFrom env from (d.network, l) → ReachableFrom env from (n, l'))
      → P d l
      → P (record d { network = n }) l'
  pub powered :
      (d : Device S) (p : PowerState) (l : Log) → P d l → P (record d { power_state = p }) l
  pub settled :
      (d : Device S) (s : State) (l : Log)
      → s ≢ State.fully_initialized
      → P d l
      → P (record d { state = s }) l
  pub socketed : (d : Device S) (s : Option S) (l : Log) → P d l → P (record d { sockets = s }) l

module _ (env : Env) (from : World → Type 0) {S : Type 0} {P : Device S → Log → Type 0} where
  pub on_network-Keeps :
      {E A : Type 0} {m : M Network E A}
      → IsDeviceInvariant env from P
      → Keeps (IsReached env from whole) m
      → Keeps P (on_network m)
  unfolding on_network
  on_network-Keeps {m = m} inv k = record {
    keeps = λ d l p. inv.moved d (m d.network l).1 l (m d.network l).2 (k.keeps d.network l) p;
  }

  pub IsDeviceInvariant-Endures : IsDeviceInvariant env from P → Endures P
  IsDeviceInvariant-Endures inv = record {
    endures = λ e d l p. inv.moved d d.network l (e ∷ l) (elsewhere e (d.network, l)) p;
  }

  pub set_power_state-Keeps :
      {E : Type 0} (p : PowerState)
      → IsDeviceInvariant env from P
      → Keeps {E = E} P (set_power_state p)
  unfolding modify
  set_power_state-Keeps p inv = record { keeps = λ d l r. inv.powered d p l r }

  pub set_off-Keeps :
      {E : Type 0} → IsDeviceInvariant env from P → Keeps {E = E} P (set_state State.off)
  unfolding modify
  set_off-Keeps inv = record { keeps = λ d l r. inv.settled d State.off l (λ e. ground arith) r }

  pub set_at_initialized-Keeps :
      {E : Type 0} → IsDeviceInvariant env from P → Keeps {E = E} P (set_state State.at_initialized)
  unfolding modify
  set_at_initialized-Keeps inv = record {
    keeps = λ d l r. inv.settled d State.at_initialized l (λ e. ground arith) r;
  }

  pub set_context_state-Keeps :
      {E : Type 0} (c : ContextState)
      → IsDeviceInvariant env from P
      → Keeps {E = E} P (set_context_state c)
  unfolding modify
  set_context_state-Keeps c inv = record {
    keeps = λ d l r.
        inv.moved d (record d.network { context_state = c }) l l (enter_context c (d.network, l)) r;
  }

pub ruleset device_rules = (
  keeping, on_network-Keeps, IsDeviceInvariant-Endures, send_internal-IsReached,
  send_ignore_timeout-IsReached, emit-Keeps, now-Keeps, wait-Keeps, set_power_state-Keeps,
  set_off-Keeps, set_at_initialized-Keeps, set_context_state-Keeps,
)

module _ (env : Env) (from : World → Type 0) {S : Type 0} (P : Device S → Log → Type 0)
    (inv : IsDeviceInvariant env from P) where
  poke-Keeps : (n : ℕ) (e : DeviceError) → Keeps P (poke env {S = S} n e)
  unfolding poke
  poke-Keeps zero e = search device_rules
  poke-Keeps (suc n) e =
      let ih = poke-Keeps n in
      let at = send_ignore_timeout-IsReached env from Command.at in search device_rules depth 40

  pub is_alive-Keeps : (n : ℕ) → Keeps P (is_alive env {S = S} n)
  unfolding is_alive
  is_alive-Keeps n = poke-Keeps n _

  -- Whatever the pin reads.
  read_vint-Keeps : (f : Log → Option Bool) → Keeps P (read_vint env {S = S} f)
  unfolding read_vint
  read_vint-Keeps f = record {
    keeps = λ d l r.
        go d l (f l) ((IsDeviceInvariant-Endures env from inv).endures Event.vint_read d l r);
  }
    where
      go :
          (d : Device S) (l : Log) (high : Option Bool)
          → P d (Event.vint_read ∷ l)
          → let x : Outcome DeviceError PowerState × Device S × Log = elim high [
            | none ↦ (err (DeviceError.generic GenericError.unsupported), d, Event.vint_read ∷ l)
            | some b ↦ (ok (if b then PowerState.on else PowerState.off), d, Event.vint_read ∷ l)
          ] in
            P x.1 x.2
      go d l none r = r
      go d l (some b) r = r

  power_state_by-Keeps : (o : Option (Log → Option Bool)) → Keeps P (power_state_by env {S = S} o)
  unfolding power_state_by
  power_state_by-Keeps none = search (device_rules, is_alive-Keeps) depth 40
  power_state_by-Keeps (some f) = read_vint-Keeps f

  pub power_state-Keeps : Keeps P (power_state env {S = S})
  unfolding power_state
  power_state-Keeps = power_state_by-Keeps env.vint_pin

  poll_power_state-Keeps :
      (fuel : ℕ) (expected : PowerState) (timeout : Duration) (start : ℕ)
      → Keeps P (poll_power_state env {S = S} fuel expected timeout start)
  unfolding poll_power_state
  poll_power_state-Keeps zero expected timeout start = search device_rules
  poll_power_state-Keeps (suc fuel) expected timeout start =
      let ih = poll_power_state-Keeps fuel expected timeout start in
      search (device_rules, power_state-Keeps) depth 40

  wait_power_state-Keeps :
      (expected : PowerState) (timeout : Duration)
      → Keeps P (wait_power_state env {S = S} expected timeout)
  unfolding wait_power_state
  wait_power_state-Keeps expected timeout = search (device_rules, poll_power_state-Keeps) depth 40

  pub soft_reset-Keeps : (b : Bool) → Keeps P (soft_reset env {S = S} b)
  unfolding soft_reset
  soft_reset-Keeps b =
      let reset = λ (f : Functionality) (r : Option ResetMode).
        send_internal-IsReached env from
          (Command.mobile_control (MobileControl.set_module_functionality f r)) false in
      search (device_rules, wait_power_state-Keeps, reset) depth 40

  hard_reset_then-Keeps : {m : _} → Keeps P m → Keeps P (hard_reset_then env {S = S} m)
  unfolding hard_reset_then
  hard_reset_then-Keeps h = search device_rules depth 40

  pulse_power_on-Keeps : Keeps P (pulse_power_on env {S = S})
  unfolding pulse_power_on
  pulse_power_on-Keeps = search (device_rules, wait_power_state-Keeps) depth 40

  pub power_on-Keeps : (fuel : ℕ) → Keeps P (power_on env {S = S} fuel)
  unfolding power_on
  power_on-Keeps zero = search device_rules
  power_on-Keeps (suc fuel) =
      let ih = hard_reset_then-Keeps (power_on-Keeps fuel) in
      search (device_rules, power_state-Keeps, pulse_power_on-Keeps, soft_reset-Keeps) depth 40

  pub hard_reset-Keeps : (fuel : ℕ) → Keeps P (hard_reset env {S = S} fuel)
  unfolding hard_reset
  hard_reset-Keeps fuel = hard_reset_then-Keeps (power_on-Keeps fuel)

  pub hard_power_off-Keeps : Keeps P (hard_power_off env {S = S})
  unfolding hard_power_off
  hard_power_off-Keeps = search (device_rules, power_state-Keeps) depth 40
