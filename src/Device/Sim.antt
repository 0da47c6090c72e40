-- ===== src/Device/Sim.antt =====
-- client.rs: `select_sim_card` with a SIM that is not ready.
use fibocom_cellular_rs.Device.State.{on_network}
use fibocom_cellular_rs.Prelude.{ℕ, zero, suc, ◌≡◌, ◌≢◌, true, false, arith, inr}
use fibocom_cellular_rs.Command.{Command, DeviceLock, PinStatus}
use fibocom_cellular_rs.Env.{Env, Log}
use fibocom_cellular_rs.Effect.{ok, combinators}
use fibocom_cellular_rs.Network.{send_internal, send}
use fibocom_cellular_rs.Device.State.{Device}
use fibocom_cellular_rs.Device.Setup.{is_ready, poll_pin, select_sim_card}

module _ (env : Env) {S : Type 0}
    (unready : (l : Log) (r : PinStatus)
      → env.send_retry l (Command.device_lock DeviceLock.get_pin_status) ≡ inr r
      → is_ready r.code ≡ false) where
  send-unready :
      (d : Device S) (l : Log) (r : PinStatus)
      → (send_internal env (Command.device_lock DeviceLock.get_pin_status) true d.network l).0
        ≡ ok r
      → is_ready r.code ≡ false
  unfolding send_internal send combinators
  send-unready d l r h = grind arith

  poll_pin-unready : (n : ℕ) (d : Device S) (l : Log) → (poll_pin env n d l).0 ≢ ok true
  unfolding poll_pin combinators on_network
  poll_pin-unready zero d l h = ground arith
  poll_pin-unready (suc n) d l h =
      let ih = poll_pin-unready n in let su = send-unready d l in grind arith

-- With a SIM that the module never reports as ready, selecting it does not succeed.
pub select_sim_card-unready :
    (env : Env)
    → ((l : Log) (r : PinStatus)
        → env.send_retry l (Command.device_lock DeviceLock.get_pin_status) ≡ inr r
        → is_ready r.code ≡ false)
    → {S : Type 0} (d : Device S) (l : Log) → (select_sim_card env d l).0 ≢ ok tt
unfolding select_sim_card combinators
select_sim_card-unready env unready {S = S} d l h =
    let pp = poll_pin-unready env {S = S} unready 2 in grind arith
