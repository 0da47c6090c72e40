-- ===== src/Device/Reset.antt =====
-- power.rs: when `power_on` never returns.
use fibocom_cellular_rs.Device.State.{on_network}
use fibocom_cellular_rs.Prelude.{ℕ, zero, suc, ◌≡◌, refl, false, arith, Bool, inl, none}
use fibocom_cellular_rs.Command.{Command}
use fibocom_cellular_rs.Error.{AtError, NetworkError, DeviceError}
use fibocom_cellular_rs.Env.{Env, Log}
use fibocom_cellular_rs.Effect.{Fault, ok, err, halt, combinators}
use fibocom_cellular_rs.Network.{send_internal, send, send_ignore_timeout}
use fibocom_cellular_rs.Device.State.{PowerState, power_state_eq, Device}
use fibocom_cellular_rs.Device.Power.{
  poke, is_alive, power_state, soft_reset, hard_reset_then, power_on,
}

module _ (env : Env) {S : Type 0}
    (dead : (l : Log) (c : Command) → env.send_retry l c ≡ inl AtError.timeout) where
  power_state-dead :
      (d : Device S) (l : Log) → env.vint_pin ≡ none → (power_state env d l).0 ≡ ok PowerState.off
  unfolding power_state is_alive poke send_ignore_timeout combinators on_network
  power_state-dead d l h = grind arith

  soft_reset-dead :
      (b : Bool) (d : Device S) (l : Log)
      → (soft_reset env b d l).0 ≡ err (DeviceError.network (NetworkError.at AtError.timeout))
  unfolding soft_reset send_internal send combinators on_network
  soft_reset-dead b d l = grind arith

-- Without a power pin, a reset pin and a sense pin, powering on a module that never answers runs
-- out of whatever depth of calls it is granted, and has by then not failed.
pub power_on-dead :
    (env : Env)
    → ((l : Log) (c : Command) → env.send_retry l c ≡ inl AtError.timeout)
    → env.vint_pin ≡ none
    → env.power_pin ≡ false
    → env.reset_pin ≡ false
    → {S : Type 0} (fuel : ℕ) (d : Device S) (l : Log)
    → (power_on env fuel d l).0 ≡ halt Fault.out_of_fuel
unfolding power_on hard_reset_then power_state_eq combinators
power_on-dead env dead v p r zero d l = refl
power_on-dead env dead v p r {S = S} (suc fuel) d l =
    let ps = (λ (d : Device S) (l : Log). power_state-dead env dead d l v) in
    let sr = soft_reset-dead env {S = S} dead false in
    let ih = power_on-dead env dead v p r {S = S} fuel in grind arith
