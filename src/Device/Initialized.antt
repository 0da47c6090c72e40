-- ===== src/Device/Initialized.antt =====
-- client.rs: what `initialize` and `send_at` promise their caller.
use fibocom_cellular_rs.Prelude.{◌≡◌, ◌≢◌, refl, true, arith}
use fibocom_cellular_rs.Command.{Command}
use fibocom_cellular_rs.Error.{DeviceError}
use fibocom_cellular_rs.Env.{Env, Log}
use fibocom_cellular_rs.Effect.{ok, err, combinators}
use fibocom_cellular_rs.Effect.Yields.{Yields, yielding}
use fibocom_cellular_rs.Network.{send_internal}
use fibocom_cellular_rs.Sockets.{SocketSetOps}
use fibocom_cellular_rs.Device.State.{State, state_eq, Device, set_state, net}
use fibocom_cellular_rs.Device.Setup.{initialize, start_registration}
use fibocom_cellular_rs.Device.Spin.{send_at}

abbrev IsInitialized : {S : Type 0} → Device S → Type 0
IsInitialized d = d.state ≡ State.fully_initialized

module _ (env : Env) {S Sock : Type 0} (ops : SocketSetOps S Sock) where
  set_state-IsInitialized :
      {E : Type 0} → Yields {S = Device S} {E = E} IsInitialized (set_state State.fully_initialized)
  unfolding combinators
  set_state-IsInitialized = record { yields = λ s l a h. refl }

  start_registration-IsInitialized : Yields IsInitialized (start_registration env ops)
  unfolding start_registration
  start_registration-IsInitialized = search (yielding, set_state-IsInitialized) depth 60

-- An initialization that succeeds leaves the device fully initialized.
pub initialize-fully_initialized :
    (env : Env) {S Sock : Type 0} (ops : SocketSetOps S Sock) (d : Device S) (l : Log)
    → (initialize env ops d l).0 ≡ ok tt
    → (initialize env ops d l).1.state ≡ State.fully_initialized
unfolding initialize state_eq combinators
initialize-fully_initialized env ops d l h =
    let sr = (start_registration-IsInitialized env ops).yields in grind arith

-- While the device is off a command is refused and nothing is sent or changed; else it is sent,
-- behind at most one message of the module.
pub send_at-off :
    (env : Env) {S Sock : Type 0} (ops : SocketSetOps S Sock) (c : Command) (d : Device S) (l : Log)
    → (d.state ≡ State.off → send_at env ops c d l ≡ (err DeviceError.uninitialized, d, l))
      × (d.state ≢ State.off → send_at env ops c d l ≡ net (send_internal env c true) d l)
unfolding send_at state_eq combinators
send_at-off env ops c d l = (λ h. ground arith, λ h. ground arith)
