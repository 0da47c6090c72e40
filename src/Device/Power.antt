-- ===== src/Device/Power.antt =====
-- ublox-cellular/src/power.rs. `power_on` and `hard_reset` call one another without a bound in the
-- source; here `fuel` bounds the depth, and a run that would go deeper halts.
use fibocom_cellular_rs.Prelude.{
  ℕ, zero, suc, Bool, true, false, Option, none, some, ◌∷◌, ltb, if◌then◌else◌,
}
use fibocom_cellular_rs.Command.{
  Command, MobileControl, SystemFeatures, Functionality, ResetMode, FsFactoryRestoreType,
  NvmFactoryRestoreType,
}
use fibocom_cellular_rs.Error.{DeviceError, GenericError, device_of_network}
use fibocom_cellular_rs.Env.{Env, Event, Log, Duration, ticks}
use fibocom_cellular_rs.Effect.{
  either, diverge, M, ok, err, ◌>>=◌, ◌>>◌, pure, throw, when, attempt, map_err, emit, now,
}
use fibocom_cellular_rs.BlockingTimer.{wait}
use fibocom_cellular_rs.Registration.{checked_duration_since}
use fibocom_cellular_rs.Network.{send_ignore_timeout, send_internal, on_at_tx}
use fibocom_cellular_rs.Device.State.{
  PowerState, power_state_eq, Device, on_network, net, set_power_state,
}
use fibocom_cellular_rs.Device.Timing.{pwr_on_time, pwr_off_time, reset_time}

-- `dur < timeout`, and false where the clock has gone back.
unfoldable pub is_within : Env → Duration → ℕ → ℕ → Bool
is_within env timeout start ts = elim (checked_duration_since ts start) [
  | none ↦ false
  | some dur ↦ ltb dur (ticks env timeout)
]

module _ (env : Env) {S : Type 0} where
  -- The loop of `is_alive`, with the error of the attempt before.
  unfoldable pub poke : ℕ → DeviceError → M (Device S) DeviceError (Unit {0})
  poke zero error = throw error
  poke (suc n) error = do
    reply ← attempt (on_network (on_at_tx (send_ignore_timeout env Command.at)))
    either (λ e. poke n (device_of_network e)) (λ _. pure tt) reply

  unfoldable pub is_alive : ℕ → M (Device S) DeviceError (Unit {0})
  is_alive attempts = poke attempts DeviceError.baud_detection

  -- `vint.is_high()`
  unfoldable pub read_vint : (Log → Option Bool) → M (Device S) DeviceError PowerState
  read_vint is_high d l = elim (is_high l) [
    | none ↦ (err (DeviceError.generic GenericError.unsupported), d, Event.vint_read ∷ l)
    | some high ↦ (ok (if high then PowerState.on else PowerState.off), d, Event.vint_read ∷ l)
  ]

  -- The sense pin tells, or a module that answers is on.
  unfoldable pub power_state_by : Option (Log → Option Bool) → M (Device S) DeviceError PowerState
  power_state_by (some is_high) = read_vint is_high
  power_state_by none = do
    alive ← attempt (is_alive 2)
    either (λ _. pure PowerState.off) (λ _. pure PowerState.on) alive

  unfoldable pub power_state : M (Device S) DeviceError PowerState
  unfolding power_state_by
  power_state = power_state_by env.vint_pin

  -- The `while` loop of `wait_power_state`: whether the state was reached.
  unfoldable pub poll_power_state : ℕ → PowerState → Duration → ℕ → M (Device S) DeviceError Bool
  unfolding is_within
  poll_power_state zero expected timeout start = diverge
  poll_power_state (suc fuel) expected timeout start = do
    ts ← now env
    if is_within env timeout start ts
        then (do
          p ← power_state
          if power_state_eq p expected
              then pure true
              else (do wait env (Duration.millis 5); poll_power_state fuel expected timeout start))
        else pure false

  unfoldable pub wait_power_state : PowerState → Duration → M (Device S) DeviceError (Unit {0})
  wait_power_state expected timeout = do
    start ← now env
    res ← poll_power_state env.spin_limit expected timeout start
    if res then pure tt else throw (DeviceError.generic GenericError.timeout)

  -- CFUN=15 or CFUN=16
  unfoldable pub soft_reset : Bool → M (Device S) DeviceError (Unit {0})
  soft_reset sim_reset = do
    net (
        send_internal env
          (Command.mobile_control (
            MobileControl.set_module_functionality
              (if sim_reset
                then Functionality.silent_reset_with_sim_reset
                else Functionality.silent_reset)
              (if env.sara_r5 then none else some ResetMode.dont_reset)))
          false)
    map_err (λ _. DeviceError.generic GenericError.timeout)
        (wait_power_state PowerState.on (Duration.secs 30))

  -- The body of `hard_reset`, given the call of `power_on` at its end.
  unfoldable pub hard_reset_then :
      M (Device S) DeviceError (Unit {0}) → M (Device S) DeviceError (Unit {0})
  unfolding reset_time
  hard_reset_then power_on = do
    when env.reset_pin (do
      emit Event.reset_low
      wait env (reset_time env)
      emit Event.reset_high
      wait env (Duration.secs 5))
    set_power_state PowerState.off
    power_on

  -- The pulse on PWR_ON.
  unfoldable pub pulse_power_on : M (Device S) DeviceError (Unit {0})
  unfolding pwr_on_time
  pulse_power_on = do
    emit Event.power_low
    wait env (pwr_on_time env)
    emit Event.power_high
    wait_power_state PowerState.on (Duration.secs 10)
    wait env (Duration.secs 3)

  unfoldable pub power_on : ℕ → M (Device S) DeviceError (Unit {0})
  power_on zero = diverge
  power_on (suc fuel) = do
    p ← power_state
    if power_state_eq p PowerState.on
        then pure tt
        else if env.power_pin
        then pulse_power_on
        else (do
          reset ← attempt (soft_reset false)
          either (λ _. hard_reset_then (power_on fuel)) (λ _. pure tt) reset)

  unfoldable pub hard_reset : ℕ → M (Device S) DeviceError (Unit {0})
  hard_reset fuel = hard_reset_then (power_on fuel)

  unfoldable pub factory_reset : ℕ → M (Device S) DeviceError (Unit {0})
  factory_reset fuel = do
    net (
        send_internal env
          (Command.system_features (
            SystemFeatures.set_factory_configuration FsFactoryRestoreType.all_files
              NvmFactoryRestoreType.nvm_flash_sectors))
          false)
    reset ← attempt (soft_reset true)
    either (λ _. hard_reset fuel) (λ _. pure tt) reset

  unfoldable pub soft_power_off : M (Device S) DeviceError (Unit {0})
  soft_power_off = do
    net (send_internal env (Command.mobile_control MobileControl.module_switch_off) false)
    set_power_state PowerState.off
    wait env (Duration.secs 10)

  unfoldable pub hard_power_off : M (Device S) DeviceError (Unit {0})
  unfolding pwr_off_time
  hard_power_off = do
    p ← power_state
    when (power_state_eq p PowerState.on) (
        if env.power_pin
        then (do
          emit Event.power_low
          wait env (pwr_off_time env)
          emit Event.power_high
          set_power_state PowerState.off)
        else throw (DeviceError.generic GenericError.unsupported))
