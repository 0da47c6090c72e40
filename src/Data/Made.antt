-- ===== src/Data/Made.antt =====
-- services/data/mod.rs: what `try_new` and `data_service` promise their caller.
use fibocom_cellular_rs.Data.Service.{on_service}
use fibocom_cellular_rs.Device.State.{on_network}
use fibocom_cellular_rs.Data.Ingress.{on_service_network}
use fibocom_cellular_rs.Prelude.{◌≡◌, refl, arith}
use fibocom_cellular_rs.Env.{Env, Log}
use fibocom_cellular_rs.Effect.{ok, combinators, ◌>>=◌, ◌>>◌, map_err}
use fibocom_cellular_rs.Registration.{ConnectionState}
use fibocom_cellular_rs.Network.{ContextState}
use fibocom_cellular_rs.Sockets.{SocketSetOps}
use fibocom_cellular_rs.Device.State.{Device, State}
use fibocom_cellular_rs.Device.Ready.{spin-ready}
use fibocom_cellular_rs.Data.Context.{ApnInfo}
use fibocom_cellular_rs.Data.Keeping.{define_context-HasStatus}
use fibocom_cellular_rs.Data.Ingress.{DataService}
use fibocom_cellular_rs.Data.Service.{try_new, define, after_spin, data_service}
use fibocom_cellular_rs.Data.Promise.{connect-active}
use fibocom_cellular_rs.Data.Lent.{ingress_if_keeps}

module _ (env : Env) {S Sock : Type 0} (ops : SocketSetOps S Sock) (apn_info : ApnInfo) where
  try_new-active :
      (d : DataService S) (l : Log)
      → (try_new env ops apn_info d l).0 ≡ ok tt
      → ((try_new env ops apn_info d l).1.network.context_state ≡ ContextState.active)
        × ((try_new env ops apn_info d l).1.network.status ≡ d.network.status)
  unfolding try_new ◌>>=◌ ◌>>◌ on_service_network on_network on_service
  try_new-active d l h =
      let c = connect-active env apn_info d.network l in
      let k = ingress_if_keeps env ops d.network.status ContextState.active in grind arith

  define_keeps :
      (d : Device S) (l : Log)
      → ((define env ops apn_info d l).1.network.status ≡ d.network.status)
        × ((define env ops apn_info d l).1.state ≡ d.state)
  unfolding define map_err on_network
  define_keeps d l =
      let k = (define_context-HasStatus env d.network.status 1 apn_info).keeps d.network l refl in
      grind arith

-- A data service that is handed out stands on a device that is fully initialized and connected to
-- the network, with an active context.
pub data_service-ready :
    (env : Env) {S Sock : Type 0} (ops : SocketSetOps S Sock) (apn_info : ApnInfo) (d : Device S)
    (l : Log)
    → (data_service env ops apn_info d l).0 ≡ ok tt
    → ((data_service env ops apn_info d l).1.network.context_state ≡ ContextState.active)
      × ((data_service env ops apn_info d l).1.network.status.conn_state
          ≡ ConnectionState.connected)
      × ((data_service env ops apn_info d l).1.state ≡ State.fully_initialized)
unfolding data_service after_spin combinators on_service_network on_network on_service
data_service-ready env ops apn_info d l h =
    let sr = spin-ready env ops d l in
    let df = define_keeps env ops apn_info in
    let tn = try_new-active env ops apn_info in grind arith
