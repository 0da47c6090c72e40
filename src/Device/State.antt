-- ===== src/Device/State.antt =====
-- client.rs and power.rs: the state of a `Device` with a socket set `S`.
use fibocom_cellular_rs.Prelude.{Bool, true, false, Option, none}
use fibocom_cellular_rs.Error.{NetworkError, DeviceError, device_of_network}
use fibocom_cellular_rs.Effect.{M, map_err, modify}
use fibocom_cellular_rs.Network.{Network, ContextState, AtTx}
use fibocom_cellular_rs.Network

pub data PowerState : Type 0 where
  off on : PowerState

unfoldable pub power_state_eq : PowerState → PowerState → Bool
power_state_eq PowerState.off PowerState.off = true
power_state_eq PowerState.on PowerState.on = true
power_state_eq _ _ = false

pub data State : Type 0 where
  off at_initialized fully_initialized : State

unfoldable pub state_eq : State → State → Bool
state_eq State.off State.off = true
state_eq State.at_initialized State.at_initialized = true
state_eq State.fully_initialized State.fully_initialized = true
state_eq _ _ = false

pub record Device (S : Type 0) : Type 0 where
  pub network : Network
  pub state : State
  pub power_state : PowerState
  pub sockets : Option S

-- Device::new
unfoldable pub new : {S : Type 0} → Device S
unfolding Network.new
new = record {
  network = Network.new (record { consecutive_timeouts = 0 });
  state = State.off;
  power_state = PowerState.off;
  sockets = none;
}

unfoldable pub on_network : {S E A : Type 0} → M Network E A → M (Device S) E A
on_network m d l = let r = m d.network l in (r.0, record d { network = r.1 }, r.2)

-- `self.network.…?`
abbrev pub net : {S A : Type 0} → M Network NetworkError A → M (Device S) DeviceError A
net m = map_err device_of_network (on_network m)

abbrev pub set_power_state : {S E : Type 0} → PowerState → M (Device S) E (Unit {0})
set_power_state p = modify λ d. record d { power_state = p }

abbrev pub set_state : {S E : Type 0} → State → M (Device S) E (Unit {0})
set_state s = modify λ d. record d { state = s }

abbrev pub set_context_state : {S E : Type 0} → ContextState → M (Device S) E (Unit {0})
set_context_state c = modify λ d. record d { network = record d.network { context_state = c } }
