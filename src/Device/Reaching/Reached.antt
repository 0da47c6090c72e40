-- ===== src/Device/Reaching/Reached.antt =====
-- client.rs: whatever the device does, its network is one that the driver reaches.
use fibocom_cellular_rs.Prelude.{◌≢◌, arith}
use fibocom_cellular_rs.Env.{Env, Log}
use fibocom_cellular_rs.Effect.{modify}
use fibocom_cellular_rs.Effect.Laws.{Keeps}
use fibocom_cellular_rs.Registration.{ConnectionState}
use fibocom_cellular_rs.Network.Reachable.{World}
use fibocom_cellular_rs.Network.Reaching.{
  IsReached, set_connection_state-IsReached, update_registration-IsReached, reset-IsReached,
  reset_reg_time-IsReached,
}
use fibocom_cellular_rs.Sockets.{SocketSetOps}
use fibocom_cellular_rs.Device.State.{State, Device, set_state}
use fibocom_cellular_rs.Device.Setup.{start_registration}
use fibocom_cellular_rs.Device.Reaching.{IsDeviceInvariant, device_rules}
use fibocom_cellular_rs.Device.Reaching.Spinning.{
  send-Keeps, select_sim_card-Keeps, enable_registration_urcs-Keeps,
}

abbrev pub OfDevice : {S : Type 0} → Env → (World → Type 0) → Device S → Log → Type 0
OfDevice env from = IsReached env from λ d. d.network

pub connecting_lem : ConnectionState.connecting ≢ ConnectionState.disconnected
connecting_lem e = ground arith

module _ (env : Env) (from : World → Type 0) {S : Type 0} where
  pub OfDevice-IsDeviceInvariant : IsDeviceInvariant env from {S = S} (OfDevice env from)
  OfDevice-IsDeviceInvariant = record {
    moved = λ d n l l' step r. step r;
    powered = λ d p l r. r;
    settled = λ d s l h r. r;
    socketed = λ d s l r. r;
  }

  pub set_state-OfDevice :
      {E : Type 0} (s : State) → Keeps {S = Device S} {E = E} (OfDevice env from) (set_state s)
  unfolding modify
  set_state-OfDevice s = record { keeps = λ d l r. r }

  pub ruleset registration_rules = (
    device_rules, OfDevice-IsDeviceInvariant, set_state-OfDevice, send-Keeps, select_sim_card-Keeps,
    enable_registration_urcs-Keeps, set_connection_state-IsReached, connecting_lem,
    update_registration-IsReached, reset-IsReached, reset_reg_time-IsReached,
  )

  pub start_registration-OfDevice :
      {Sock : Type 0} (ops : SocketSetOps S Sock)
      → Keeps (OfDevice env from) (start_registration env ops)
  unfolding start_registration
  start_registration-OfDevice ops = search registration_rules depth 80
