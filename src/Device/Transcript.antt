-- ===== src/Device/Transcript.antt =====
-- client.rs: the commands that `setup_at_commands` and `start_registration` send.
pub mod Registering
pub mod Initializing
use fibocom_cellular_rs.Prelude.{
  ℕ, zero, suc, ◌≤◌, ◌≡◌, ◌≢◌, refl, arith, Bool, ◌⊎◌, true, false, Option, none, some, List, [],
  ◌∷◌, inl, inr, ◌∙◌, ap, if◌then◌else◌,
}
use fibocom_cellular_rs.Command.{
  Command, DeviceLock, MobileControl, General, Control, SystemFeatures, IpTransportLayer, GpioMode,
  GpioOutValue, GpioInPull, TerminationErrorMode, Circuit109Behaviour, Circuit108Behaviour,
  PowerSavingMode, HexMode, FlowControl,
}
use fibocom_cellular_rs.Error.{DeviceError}
use fibocom_cellular_rs.Env.{Env, Log, Event, Duration, commands}
use fibocom_cellular_rs.Effect.{
  ok, err, either, halt, throw, modify, when, attempt, pure, ◌>>◌, ◌>>=◌, combinators,
}
use fibocom_cellular_rs.Effect.Runs.{Done, Done->>, Done->>=, Done-either->>}
use fibocom_cellular_rs.BlockingTimer.{wait, wait_until}
use fibocom_cellular_rs.Network.{ContextState, send_internal, send_ignore_timeout, handle_urc}
use fibocom_cellular_rs.Network
use fibocom_cellular_rs.Sockets.{SocketSetOps}
use fibocom_cellular_rs.Device.State.{Device, State, set_state, set_context_state, on_network}
use fibocom_cellular_rs.Device.Power.{poke, is_alive, power_on}
use fibocom_cellular_rs.Device.Setup.{
  send, poll_pin, select_sim_card, select_sim_slot, configure_line, recover_baud, clear_buffers,
  setup_at_commands,
}

-- A command that is sent only under a condition.
unfoldable pub optional : Bool → Command → List Command → List Command
optional b c before = if b then c ∷ before else before

-- What is sent to identify the module and to select the SIM's slot, newest first.
abbrev pub slot_settings : Env → List Command → List Command
slot_settings env before =
    Command.general General.get_firmware_version
    ∷ Command.general General.get_model_id
    ∷ optional env.lara_r6 (Command.set_gpio_configuration 42 (GpioMode.input GpioInPull.no_pull)) (
        Command.set_gpio_configuration 25 (GpioMode.output GpioOutValue.high)
        ∷ Command.mobile_control
            (MobileControl.set_report_mobile_termination_error TerminationErrorMode.enabled)
        ∷ before)

-- The settings of the serial line, newest first.
abbrev pub line_settings : Env → List Command → List Command
line_settings env before =
    Command.control (
      Control.set_flow_control
        (if env.flow_control then FlowControl.rts_cts else FlowControl.disabled))
    ∷ Command.ip_transport_layer
        (IpTransportLayer.set_hex_mode (if env.hex_mode then HexMode.enabled else HexMode.disabled))
    ∷ Command.system_features
        (SystemFeatures.set_power_saving_control PowerSavingMode.disabled none)
    ∷ Command.control (Control.set_circuit_108_behaviour Circuit108Behaviour.ignore)
    ∷ Command.control (Control.set_circuit_109_behaviour Circuit109Behaviour.changes_with_carrier)
    ∷ Command.general General.get_ccid
    ∷ before

abbrev pub pin_query : Command
pin_query = Command.device_lock DeviceLock.get_pin_status

-- Between the two lists the command was sent, once at least and `n` times at most.
unfoldable pub IsRepeated : Command → ℕ → List Command → List Command → Type 0
IsRepeated c zero before after = ⊥
IsRepeated c (suc n) before after = (after ≡ c ∷ before) ⊎ IsRepeated c n (c ∷ before) after

-- What `setup_at_commands` has sent behind the commands that switched the module on.
pub record IsSetUp (env : Env) (powered after : List Command) : Type 0 where
  pub alive : List Command
  pub identified : List Command
  pub polled : List Command
  pub alive-IsRepeated : IsRepeated Command.at 5 powered alive
  pub identified_lem : identified ≡ slot_settings env alive
  pub polled-IsRepeated : IsRepeated pin_query 2 identified polled
  pub lined : after ≡ line_settings env polled

module _ (env : Env) {S : Type 0} where
  pub send-commands :
      (c : Command) (check_urc : Bool) (d : Device S) (l : Log)
      → commands (send env c check_urc d l).2 ≡ c ∷ commands l
  unfolding send send_internal Network.send handle_urc combinators on_network
  send-commands c check_urc d l = ground arith

  pub when_send-commands :
      (b : Bool) (c : Command) (check_urc : Bool) (d : Device S) (l : Log)
      → commands (when b (send env c check_urc) d l).2 ≡ optional b c (commands l)
  unfolding optional combinators
  when_send-commands true c check_urc d l = send-commands c check_urc d l
  when_send-commands false c check_urc d l = refl

  wait_until-commands :
      (fuel e : ℕ) (d : Device S) (l : Log)
      → commands (wait_until env {E = DeviceError} fuel e d l).2 ≡ commands l
  unfolding wait_until
  wait_until-commands zero e d l = refl
  wait_until-commands (suc fuel) e d l =
      let ih = wait_until-commands fuel e d (Event.clock_read ∷ l) in ground arith

  wait-commands :
      (t : Duration) (d : Device S) (l : Log)
      → commands (wait env {E = DeviceError} t d l).2 ≡ commands l
  unfolding wait combinators
  wait-commands t d l = wait_until-commands env.spin_limit _ d (Event.clock_read ∷ l)

  select_sim_slot-commands :
      (d : Device S) (l : Log)
      → (select_sim_slot env d l).0 ≡ ok tt
      → commands (select_sim_slot env d l).2 ≡ slot_settings env (commands l)
  unfolding select_sim_slot combinators
  select_sim_slot-commands d l h =
      let sc = send-commands in let wc = when_send-commands env.lara_r6 in grind arith

  configure_line-commands :
      (d : Device S) (l : Log)
      → (configure_line env d l).0 ≡ ok tt
      → commands (configure_line env d l).2 ≡ line_settings env (commands l)
  unfolding configure_line combinators
  configure_line-commands d l h = let sc = send-commands in grind arith

  pub send_internal-commands :
      (c : Command) (check_urc : Bool) (d : Device S) (l : Log)
      → commands (on_network (send_internal env c check_urc) d l).2 ≡ c ∷ commands l
  unfolding send_internal Network.send handle_urc combinators on_network
  send_internal-commands c check_urc d l = ground arith

  poll_pin-IsRepeated :
      (n : ℕ) (d : Device S) (l : Log)
      → (poll_pin env n d l).0 ≡ ok true
      → IsRepeated pin_query n (commands l) (commands (poll_pin env n d l).2)
  unfolding poll_pin IsRepeated combinators
  poll_pin-IsRepeated zero d l h = ground arith
  poll_pin-IsRepeated (suc n) d l h =
      let ih = poll_pin-IsRepeated n in
      let qc = send_internal-commands pin_query true in
      let wc = wait-commands (Duration.secs 1) in grind arith

  pub select_sim_card-IsRepeated :
      (d : Device S) (l : Log)
      → (select_sim_card env d l).0 ≡ ok tt
      → IsRepeated pin_query 2 (commands l) (commands (select_sim_card env d l).2)
  unfolding select_sim_card combinators
  select_sim_card-IsRepeated d l h = let pp = poll_pin-IsRepeated 2 in grind arith

  poke-IsRepeated :
      (n : ℕ) (e : DeviceError) (d : Device S) (l : Log)
      → (poke env n e d l).0 ≡ ok tt
      → IsRepeated Command.at n (commands l) (commands (poke env n e d l).2)
  unfolding poke send_ignore_timeout IsRepeated combinators on_network
  poke-IsRepeated zero e d l h = ground arith
  poke-IsRepeated (suc n) e d l h = let ih = poke-IsRepeated n in grind arith

  recover_baud-fails : (d : Device S) (l : Log) → (recover_baud env d l).0 ≢ ok tt
  unfolding recover_baud combinators
  recover_baud-fails d l h = grind arith

  awake-IsRepeated :
      (d : Device S) (l : Log)
      → (attempt {F = DeviceError} (is_alive env 5) d l).0 ≡ ok (inr tt)
      → IsRepeated Command.at 5
          (commands l)
          (commands (attempt {F = DeviceError} (is_alive env 5) d l).2)
  unfolding is_alive combinators
  awake-IsRepeated d l h = let pk = poke-IsRepeated 5 DeviceError.baud_detection in grind arith

-- What has been sent when `power_on` returns, with which `setup_at_commands` begins.
abbrev pub powered : {S Sock : Type 0} → Env → SocketSetOps S Sock → Device S → Log → List Command
powered env ops d l =
    let setting = set_context_state {E = DeviceError} ContextState.setup d l in
    let cleared = clear_buffers env ops setting.1 setting.2 in
    commands (power_on env env.spin_limit cleared.1 cleared.2).2

pub setup_at_commands-IsSetUp :
    (env : Env) {S Sock : Type 0} (ops : SocketSetOps S Sock) (d : Device S) (l : Log)
    → Done (λ l'. IsSetUp env (powered env ops d l) (commands l')) (setup_at_commands env ops) d l
unfolding setup_at_commands modify
setup_at_commands-IsSetUp env ops d l = Done->> _ _ λ _. Done->> _ _ λ _. Done->> _ _ λ _.
    Done->>= _ _ λ alive hal.
      Done-either->> _ _ _ alive (λ e he. Done->> _ _ λ h. absurd (recover_baud-fails env _ _ h))
        λ a ha. Done->> _ _ λ _. Done->> _ _ λ hid. Done->> _ _ λ hpo. Done->> _ _ λ hli. record {
          done = λ u h. record {
            alive = _;
            identified = _;
            polled = _;
            alive-IsRepeated = awake-IsRepeated env _ _ (hal ∙ ap ok ha);
            identified_lem = select_sim_slot-commands env _ _ hid;
            polled-IsRepeated = select_sim_card-IsRepeated env _ _ hpo;
            lined = configure_line-commands env _ _ hli;
          };
        }
