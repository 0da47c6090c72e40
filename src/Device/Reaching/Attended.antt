-- ===== src/Device/Reaching/Attended.antt =====
-- client.rs: the network of a device that is fully initialized is one that the driver reaches from
-- a watched one.
use fibocom_cellular_rs.Prelude.{◌≡◌, ◌≢◌, arith}
use fibocom_cellular_rs.Env.{Env, Log}
use fibocom_cellular_rs.Error.{DeviceError}
use fibocom_cellular_rs.Effect.{M, ◌>>◌, combinators}
use fibocom_cellular_rs.Effect.Laws.{Keeps, Keeps->>}
use fibocom_cellular_rs.Registration.{ConnectionState, set_connection_state}
use fibocom_cellular_rs.Network.State.{Network, modify_status}
use fibocom_cellular_rs.Network.Reachable.{World, ReachableFrom, begin}
use fibocom_cellular_rs.Network.Reaching.{reset-IsReached}
use fibocom_cellular_rs.Sockets.{SocketSetOps}
use fibocom_cellular_rs.Device.State.{State, Device, on_network}
use fibocom_cellular_rs.Device.Setup.{start_registration}
use fibocom_cellular_rs.Device.Reaching.{IsDeviceInvariant, device_rules}
use fibocom_cellular_rs.Device.Reaching.Spinning.{send-Keeps, select_sim_card-Keeps}
use fibocom_cellular_rs.Device.Reaching.Reached.{
  OfDevice, OfDevice-IsDeviceInvariant, registration_rules,
}

module _ (env : Env) (from : World → Type 0) where
  pub record IsAttended {S : Type 0} (d : Device S) (l : Log) : Type 0 where
    pub attended : d.state ≡ State.fully_initialized → ReachableFrom env from (d.network, l)

  module _ {S : Type 0} where
    pub IsAttended-IsDeviceInvariant : IsDeviceInvariant env from {S = S} IsAttended
    IsAttended-IsDeviceInvariant = record {
      moved = λ d n l l' step a. record { attended = λ e. step (a.attended e) };
      powered = λ d p l a. record { attended = a.attended };
      settled = λ d s l h a. record { attended = λ e. absurd (h e) };
      socketed = λ d s l a. record { attended = a.attended };
    }

    module _
        (watched : (n : Network) (l : Log)
          → n.status.conn_state ≢ ConnectionState.disconnected
          → from (n, l)) where
      -- From a connection that is being made the driver begins, and what keeps its worlds may
      -- follow.
      connecting-Keeps :
          {k : M (Device S) DeviceError (Unit {0})}
          → Keeps (OfDevice env from) k
          → Keeps IsAttended
              (on_network (modify_status (set_connection_state ConnectionState.connecting)) >> k)
      unfolding on_network set_connection_state combinators
      connecting-Keeps {k} h = record {
        keeps = λ d l a. record {
          attended = λ e. h.keeps _ _ (begin _ (watched _ _ (λ e. ground arith)));
        };
      }

      pub start_registration-IsAttended :
          {Sock : Type 0} (ops : SocketSetOps S Sock)
          → Keeps IsAttended (start_registration env ops)
      unfolding start_registration
      start_registration-IsAttended ops =
          let inv = IsAttended-IsDeviceInvariant in
          let reached = OfDevice-IsDeviceInvariant env from {S = S} in
          let send = send-Keeps env from IsAttended inv in
          Keeps->> (select_sim_card-Keeps env from IsAttended inv) (
            Keeps->> (search (device_rules, send) depth 40) (
              Keeps->> (send _ _) (
                Keeps->> (send _ _) (
                  Keeps->> (search (device_rules, inv, reset-IsReached) depth 40)
                    (connecting-Keeps (search (registration_rules, reached) depth 80))))))
