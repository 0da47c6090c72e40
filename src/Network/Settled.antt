-- ===== src/Network/Settled.antt =====
-- network.rs: the connection state behind `check_registration_state`.
use fibocom_cellular_rs.Prelude.{◌≡◌, ◌≢◌, true, false, arith, if◌then◌else◌}
use fibocom_cellular_rs.Env.{Env, Log, commands}
use fibocom_cellular_rs.Error.{NetworkError}
use fibocom_cellular_rs.Effect.{combinators, ok}
use fibocom_cellular_rs.Registration.{ConnectionState, set_connection_state, reset, registered}
use fibocom_cellular_rs.Network.State.{Network}
use fibocom_cellular_rs.Network.Watch.{has_service, check_registration_state}

-- The check never fails and sends nothing, it leaves a disconnected network alone, and any other
-- network is connected after it exactly if it has service, and is connecting otherwise; a
-- connection that is lost is also counted afresh.
pub check_registration_state_lem :
    (env : Env) (n : Network) (l : Log)
    → ((check_registration_state env {E = NetworkError} n l).0 ≡ ok tt)
      × (commands (check_registration_state env {E = NetworkError} n l).2 ≡ commands l)
      × (n.status.conn_state ≡ ConnectionState.disconnected
          → check_registration_state env {E = NetworkError} n l ≡ (ok tt, n, l))
      × (n.status.conn_state ≢ ConnectionState.disconnected
          → (check_registration_state env {E = NetworkError} n l).1.status.conn_state
            ≡ (if has_service n then ConnectionState.connected else ConnectionState.connecting))
      × (n.status.conn_state ≡ ConnectionState.connected
          → has_service n ≡ false
          → (check_registration_state env {E = NetworkError} n
              l).1.status.registration_interventions
            ≡ 1)
unfolding combinators check_registration_state reset set_connection_state
check_registration_state_lem env n l =
    (ground arith, ground arith, λ h. ground arith, λ h. ground arith, λ h g. ground arith)

-- What the check calls connected has service, whatever it was called before.
pub check_registration_state-has_service :
    (env : Env) (n : Network) (l : Log)
    → (check_registration_state env {E = NetworkError} n l).1.status.conn_state
      ≡ ConnectionState.connected
    → has_service (check_registration_state env {E = NetworkError} n l).1 ≡ true
unfolding combinators check_registration_state reset set_connection_state has_service registered
check_registration_state-has_service env n l h = ground arith
