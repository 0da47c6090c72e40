-- ===== src/Device/Ready.antt =====
-- What `spin` promises its caller.
use fibocom_cellular_rs.Prelude.{◌≡◌, ◌≢◌, arith}
use fibocom_cellular_rs.Error.{NbError}
use fibocom_cellular_rs.Env.{Env, Log}
use fibocom_cellular_rs.Effect.{combinators, ok, err}
use fibocom_cellular_rs.Registration.{ConnectionState}
use fibocom_cellular_rs.Network.{ContextState}
use fibocom_cellular_rs.Sockets.{SocketSetOps}
use fibocom_cellular_rs.Device.State.{State, Device}
use fibocom_cellular_rs.Device.Spin.{spin}

module _ (env : Env) {S Sock : Type 0} (ops : SocketSetOps S Sock) (d : Device S) (l : Log) where
  -- A spin that succeeds leaves a device that is connected to the network and fully initialized.
  pub spin-ready :
      (spin env ops d l).0 ≡ ok tt
      → ((spin env ops d l).1.network.status.conn_state ≡ ConnectionState.connected)
        × ((spin env ops d l).1.state ≡ State.fully_initialized)
  unfolding spin combinators
  spin-ready h = ground arith

  -- A spin that would block leaves no active context: one that was active is activated anew.
  pub spin-blocked :
      (spin env ops d l).0 ≡ err NbError.would_block
      → (spin env ops d l).1.network.context_state ≢ ContextState.active
  unfolding spin combinators
  spin-blocked h = ground arith
