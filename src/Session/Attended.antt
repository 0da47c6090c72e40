-- ===== src/Session/Attended.antt =====
-- client.rs, power.rs, services/data: whatever an application calls, the network of a device that
-- is fully initialized is watched.
use fibocom_cellular_rs.Prelude.{◌≡◌, ◌≢◌, List}
use fibocom_cellular_rs.Env.{Env, Log}
use fibocom_cellular_rs.Registration.{ConnectionState}
use fibocom_cellular_rs.Network.Reachable.{begin}
use fibocom_cellular_rs.Network.Watched.{Watched, ReachableFrom-IsWatched}
use fibocom_cellular_rs.Device.State.{State, Device}
use fibocom_cellular_rs.Device.Reaching.Attended.{
  IsAttended, IsAttended-IsDeviceInvariant, start_registration-IsAttended,
}
use fibocom_cellular_rs.Session.{Surroundings, Call, perform_all}
use fibocom_cellular_rs.Session.Reached.{perform_all-Keeps}

-- Of a device that is not disconnected where it is fully initialized: whatever an application calls
-- on it and on the data services that it makes of it, in any order and whatever becomes of the
-- calls, also a panic or a run that does not end, if the device is fully initialized afterwards, it
-- is not disconnected, so that `check_registration_state` looks at its network.
pub perform_all-attended :
    (env : Env) {S Sock T U : Type 0} (ops : Surroundings S Sock T U) (E : Type 0)
    (cs : List (Call S)) (d : Device S) (l : Log)
    → (d.state ≡ State.fully_initialized
        → d.network.status.conn_state ≢ ConnectionState.disconnected)
    → let r = perform_all env ops {E = E} cs d l in
      r.1.state ≡ State.fully_initialized
      → r.1.network.status.conn_state ≢ ConnectionState.disconnected
perform_all-attended env ops E cs d l h e =
    let starts =
      start_registration-IsAttended env Watched (λ n l h. record { watched = h }) ops.set in
    let first : IsAttended env Watched d l = record {
      attended = λ e. begin _ (record { watched = h e });
    } in
    let kept =
      perform_all-Keeps env Watched ops (IsAttended env Watched)
        (IsAttended-IsDeviceInvariant env Watched) starts {E = E} cs in
    (ReachableFrom-IsWatched env ((kept.keeps d l first).attended e)).watched
