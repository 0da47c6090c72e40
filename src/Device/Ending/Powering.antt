-- ===== src/Device/Ending/Powering.antt =====
-- power.rs: switching the module on and off, and resetting it.
use fibocom_cellular_rs.Prelude.{ℕ, zero, suc, Bool, true, false, ◌≡◌, ◌<◌, arith, Option}
use fibocom_cellular_rs.Command.{Command, MobileControl, Functionality, ResetMode}
use fibocom_cellular_rs.Error.{DeviceError}
use fibocom_cellular_rs.Env.{Env, Duration, ticks, IsTimely}
use fibocom_cellular_rs.Effect.Ends.{Ends, ending, Ends->>=, Ends-if, Ends-pure, Ends-if_true}
use fibocom_cellular_rs.BlockingTimer.{wait}
use fibocom_cellular_rs.BlockingTimer.Waiting.{wait-Ends}
use fibocom_cellular_rs.Network.Ending.{send_internal-Ends}
use fibocom_cellular_rs.Device.State.{PowerState, power_state_eq, Device}
use fibocom_cellular_rs.Device.Timing.{pwr_on_time, pwr_off_time, reset_time}
use fibocom_cellular_rs.Device.Power.{
  soft_reset, hard_reset_then, pulse_power_on, power_on, hard_reset, hard_power_off,
}
use fibocom_cellular_rs.Device.Ending.Polling.{
  Ends-on_network, power_state-Ends, wait_power_state-Ends,
}

module _ (env : Env) (timely : IsTimely env) where
  pwr_on_time-limit : ticks env (pwr_on_time env) < env.spin_limit
  unfolding pwr_on_time
  pwr_on_time-limit = let limit = timely.limit in grind arith

  pwr_off_time-limit : ticks env (pwr_off_time env) < env.spin_limit
  unfolding pwr_off_time
  pwr_off_time-limit = let limit = timely.limit in grind arith

  reset_time-limit : ticks env (reset_time env) < env.spin_limit
  unfolding reset_time
  reset_time-limit = let limit = timely.limit in grind arith

module _ (env : Env) (S : Type 0) (timely : IsTimely env) where
  abbrev pub Waits : (E : Type 0) → Duration → Type 0
  Waits E d = Ends {S = Device S} {E = E} (wait env d)

  pub wait_secs-Ends : (E : Type 0) (n : ℕ) → n < 31 → Waits E (Duration.secs n)
  wait_secs-Ends E n h = wait-Ends env _ timely.advancing (let limit = timely.limit in grind arith)

  pulse_power_on-Ends : Ends (pulse_power_on env {S = S})
  unfolding pulse_power_on
  pulse_power_on-Ends =
      let on =
        wait_power_state-Ends env {S = S} timely PowerState.on (Duration.secs 10)
          (let limit = timely.limit in omega arith) in
      let pulse : Waits DeviceError (pwr_on_time env) =
        wait-Ends env _ timely.advancing (pwr_on_time-limit env timely) in
      let three = wait_secs-Ends DeviceError 3 (omega arith) in search ending depth 40

  pub soft_reset-Ends : (b : Bool) → Ends (soft_reset env {S = S} b)
  unfolding soft_reset
  soft_reset-Ends b =
      let on =
        wait_power_state-Ends env {S = S} timely PowerState.on (Duration.secs 30) timely.limit in
      let reset = λ (f : Functionality). λ (r : Option ResetMode).
        send_internal-Ends env (Command.mobile_control (MobileControl.set_module_functionality f r))
          false in
      search (ending, Ends-on_network, reset) depth 40

  hard_reset_then-Ends : {m : _} → Ends m → Ends (hard_reset_then env {S = S} m)
  unfolding hard_reset_then
  hard_reset_then-Ends h =
      let low : Waits DeviceError (reset_time env) =
        wait-Ends env _ timely.advancing (reset_time-limit env timely) in
      let five = wait_secs-Ends DeviceError 5 (omega arith) in search ending depth 40

  pub hard_power_off-Ends : Ends (hard_power_off env {S = S})
  unfolding hard_power_off
  hard_power_off-Ends =
      let low : Waits DeviceError (pwr_off_time env) =
        wait-Ends env _ timely.advancing (pwr_off_time-limit env timely) in
      let state = power_state-Ends env {S = S} in search ending depth 40

  module _ (pin : env.power_pin ≡ true) where
    power_on-Ends : (fuel : ℕ) → 0 < fuel → Ends (power_on env {S = S} fuel)
    unfolding power_on
    power_on-Ends zero h = ground arith
    power_on-Ends (suc fuel) h = Ends->>= (power_state-Ends env) λ p.
        Ends-if (power_state_eq p PowerState.on) (Ends-pure tt)
          (Ends-if_true _ pin pulse_power_on-Ends)

    pub started-Ends : Ends (power_on env {S = S} env.spin_limit)
    started-Ends = power_on-Ends env.spin_limit (let limit = timely.limit in omega arith)

    pub hard_reset-Ends : Ends (hard_reset env {S = S} env.spin_limit)
    unfolding hard_reset
    hard_reset-Ends = hard_reset_then-Ends started-Ends
