-- ===== src/Device/Transcript/Initializing.antt =====
-- client.rs: the commands that `initialize` sends.
use fibocom_cellular_rs.Prelude.{◌≡◌, ◌≢◌, arith, List, not}
use fibocom_cellular_rs.Command.{Command}
use fibocom_cellular_rs.Env.{Env, Log, commands}
use fibocom_cellular_rs.Effect.{ok, when, ◌>>◌, combinators}
use fibocom_cellular_rs.Effect.Runs.{Done, Done->>}
use fibocom_cellular_rs.Sockets.{SocketSetOps}
use fibocom_cellular_rs.Device.State.{PowerState, power_state_eq, State, state_eq, Device}
use fibocom_cellular_rs.Device.Setup.{
  ensure_power, setup_at_commands, start_registration, initialize,
}
use fibocom_cellular_rs.Device.Transcript.{IsSetUp, powered, setup_at_commands-IsSetUp}
use fibocom_cellular_rs.Device.Transcript.Registering.{
  IsRegistering, start_registration-IsRegistering,
}

-- What has been sent when the module is switched on: by `ensure_power`, unless the device is taken
-- to be on, and by the `power_on` of `setup_at_commands`.
abbrev pub switched_on :
    {S Sock : Type 0} → Env → SocketSetOps S Sock → Device S → Log → List Command
switched_on env ops d l =
    let ensured =
      when (not (power_state_eq d.power_state PowerState.on)) (ensure_power env ops) d l in
    powered env ops ensured.1 ensured.2

-- The module was set up behind `powered`, and its registration started right behind that.
pub record IsBroughtUp (env : Env) (powered after : List Command) : Type 0 where
  pub configured : List Command
  pub set_up : IsSetUp env powered configured
  pub registering : IsRegistering env configured after

module _ (env : Env) {S Sock : Type 0} (ops : SocketSetOps S Sock) where
  brought_up :
      (d : Device S) (l : Log)
      → Done
          (λ l'. IsBroughtUp env (powered env ops d l) (commands l'))
          (setup_at_commands env ops >> start_registration env ops)
          d
          l
  brought_up d l = Done->> _ _ λ hs. record {
    done = λ u h. record {
      configured = _;
      set_up = (setup_at_commands-IsSetUp env ops d l).done tt hs;
      registering = (start_registration-IsRegistering env ops _ _).done u h;
    };
  }

-- On a device that is on and fully initialized an initialization does nothing. Any other one that
-- succeeds has brought the module up. Behind the commands that `ensure_power` and `power_on` send
-- in this run to switch it on, it has sent, in this order and nothing else: `AT`, five times at
-- most; the settings that identify the module and select the SIM's slot; the question for the SIM,
-- twice at most; the settings of the serial line; the question for the SIM, twice at most; the
-- settings before the radio, and the radio's being switched on; the settings of unasked messages;
-- the question for the operator; automatic selection, exactly if the answer was neither automatic
-- nor manual; and the four queries of the registration.
pub initialize-IsBroughtUp :
    (env : Env) {S Sock : Type 0} (ops : SocketSetOps S Sock) (d : Device S) (l : Log)
    → (d.power_state ≡ PowerState.on
        → d.state ≡ State.fully_initialized
        → initialize env ops d l ≡ (ok tt, d, l))
      × ((d.power_state ≡ PowerState.on → d.state ≢ State.fully_initialized)
          → (initialize env ops d l).0 ≡ ok tt
          → IsBroughtUp env (switched_on env ops d l) (commands (initialize env ops d l).2))
unfolding initialize power_state_eq state_eq combinators
initialize-IsBroughtUp env {S = S} ops d l =
    let up = (λ (d : Device S) (l : Log). (brought_up env ops d l).done tt) in
    (λ p s. ground arith, λ n h. grind arith)
