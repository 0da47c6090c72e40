-- ===== src/Data/Reaching.antt =====
-- services/data/mod.rs: whatever the data service does, its network is one that the driver reaches.
use fibocom_cellular_rs.Prelude.{ℕ, zero, suc, none, some, Option, [], ◌∷◌, List}
use fibocom_cellular_rs.Command.{Bytes, PacketSwitchedParam}
use fibocom_cellular_rs.Error.{NbError, DeviceError}
use fibocom_cellular_rs.Env.{Env, Log}
use fibocom_cellular_rs.Effect.{M, modify}
use fibocom_cellular_rs.Effect.Laws.{Keeps, keeping}
use fibocom_cellular_rs.Hex.{HexResult}
use fibocom_cellular_rs.Network.State.{Network, ContextState}
use fibocom_cellular_rs.Network.Reachable.{World, Reachable, IsNew}
use fibocom_cellular_rs.Network.Reaching.{
  IsReached, IsReached-Endures, whole, wait-Keeps, send_internal-IsReached, set_context-IsReached,
}
use fibocom_cellular_rs.Sockets.{SocketType, SocketSetOps}
use fibocom_cellular_rs.Device.State.{Device}
use fibocom_cellular_rs.Device.Setup.{start_registration}
use fibocom_cellular_rs.Device.Reaching.{IsDeviceInvariant, on_network-Keeps}
use fibocom_cellular_rs.Device.Reaching.Spinning.{spin-Keeps}
use fibocom_cellular_rs.Device.Reaching.Reached.{
  OfDevice, OfDevice-IsDeviceInvariant, start_registration-OfDevice,
}
use fibocom_cellular_rs.Text.Fitting.{string-Keeps}
use fibocom_cellular_rs.Data.Context.{
  Apn, ApnInfo, set_context, define_apn, define_context, attach_network, poll_attached,
  activate_context, activate_context_upsd, activate_profile, map_profile, connect, set_config_if,
}
use fibocom_cellular_rs.Data.Ingress.{
  DataService, on_service_network, send_data, demangle, Read, store, update_available_data,
  read_socket, enqueue_payload, enqueue, accept_read, ingress, ingress_each, ingress_all,
  socket_ingress_all,
}
use fibocom_cellular_rs.Data.Service.{on_service, try_new, define, after_spin, data_service}

module _ (env : Env) (from : World → Type 0) where
  abbrev OfNetwork : Network → Log → Type 0
  OfNetwork = IsReached env from whole

  set_context_lem : {E : Type 0} (c : ContextState) → Keeps {E = E} OfNetwork (set_context c)
  set_context_lem c = set_context-IsReached env from c

  ruleset context_rules =
      (keeping, send_internal-IsReached, set_context_lem, wait-Keeps, IsReached-Endures)

  map_profile-OfNetwork : (cid p : ℕ) (c : _) → Keeps OfNetwork (map_profile env cid p c)
  unfolding map_profile
  map_profile-OfNetwork cid p (PacketSwitchedParam.map_profile c) = search context_rules depth 40
  map_profile-OfNetwork cid p _ = search context_rules

  activate_profile-OfNetwork : (cid p : ℕ) → Keeps OfNetwork (activate_profile env cid p)
  unfolding activate_profile
  activate_profile-OfNetwork cid p = search (context_rules, map_profile-OfNetwork) depth 40

  activate_context-OfNetwork : (cid p : ℕ) → Keeps OfNetwork (activate_context env cid p)
  unfolding activate_context
  activate_context-OfNetwork cid p = search (context_rules, activate_profile-OfNetwork) depth 40

  set_config_if-OfNetwork :
      (p n : ℕ) (param : Bytes → PacketSwitchedParam) (o : Option Bytes)
      → Keeps OfNetwork (set_config_if env p n param o)
  set_config_if-OfNetwork p n param none = search context_rules
  set_config_if-OfNetwork p n param (some t) = search (context_rules, string-Keeps) depth 40

  activate_context_upsd-OfNetwork :
      (p : ℕ) (a : ApnInfo) → Keeps OfNetwork (activate_context_upsd env p a)
  unfolding activate_context_upsd
  activate_context_upsd-OfNetwork p a = search (context_rules, set_config_if-OfNetwork) depth 40

  define_apn-OfNetwork : (cid : ℕ) (a : Apn) → Keeps OfNetwork (define_apn env cid a)
  unfolding define_apn
  define_apn-OfNetwork cid (Apn.given a) = search context_rules depth 40
  define_apn-OfNetwork cid Apn.automatic = search context_rules

  define_context-OfNetwork : (cid : ℕ) (a : ApnInfo) → Keeps OfNetwork (define_context env cid a)
  unfolding define_context
  define_context-OfNetwork cid a = search (context_rules, define_apn-OfNetwork) depth 40

  poll_attached-OfNetwork : (n : ℕ) → Keeps OfNetwork (poll_attached env n)
  unfolding poll_attached
  poll_attached-OfNetwork zero = search context_rules
  poll_attached-OfNetwork (suc n) =
      let ih = poll_attached-OfNetwork n in search context_rules depth 40

  connect-OfNetwork : (a : ApnInfo) → Keeps OfNetwork (connect env a)
  unfolding connect attach_network
  connect-OfNetwork a =
      search
        (
          context_rules, poll_attached-OfNetwork, activate_context-OfNetwork,
          activate_context_upsd-OfNetwork,
        )
        depth 40

abbrev pub OfService : {S : Type 0} → Env → (World → Type 0) → DataService S → Log → Type 0
OfService env from = IsReached env from λ d. d.network

pub on_service_network-OfService :
    (env : Env) (from : World → Type 0) {S E A : Type 0} {m : M Network E A}
    → Keeps (IsReached env from whole) m
    → Keeps {S = DataService S} (OfService env from) (on_service_network m)
unfolding on_service_network
on_service_network-OfService env from k = record { keeps = λ d l r. k.keeps d.network l r }

-- What the operations of a device keep, those of its data service keep.
pub on_service-Keeps :
    (env : Env) (from : World → Type 0) {S E A : Type 0} {P : Device S → Log → Type 0}
    {m : M (DataService S) E A}
    → IsDeviceInvariant env from P
    → Keeps (OfService env from) m
    → Keeps P (on_service m)
unfolding on_service
on_service-Keeps env from {m = m} inv k = record {
  keeps = λ d l p.
      let r = m (record { network = d.network; sockets = d.sockets }) l in
      inv.socketed (record d { network = r.1.network }) r.1.sockets r.2
        (inv.moved d r.1.network l r.2
          (k.keeps (record { network = d.network; sockets = d.sockets }) l) p);
}

demangle-OfService :
    (env : Env) (from : World → Type 0) {S : Type 0} (r : HexResult Bytes)
    → Keeps {S = DataService S} (OfService env from) (demangle r)
unfolding demangle
demangle-OfService env from (HexResult.ok bytes) = search keeping
demangle-OfService env from (HexResult.err e) = search keeping
demangle-OfService env from HexResult.panic = search keeping

module _ (env : Env) (from : World → Type 0) {S Sock : Type 0} (ops : SocketSetOps S Sock) where
  store-OfService :
      {E : Type 0} (handle : ℕ) (sock : Sock)
      → Keeps {E = E} (OfService env from) (store env ops handle sock)
  unfolding modify
  store-OfService handle sock = record { keeps = λ d l r. r }

  ruleset service_rules = (
    keeping, on_service_network-OfService, send_internal-IsReached, demangle-OfService,
    store-OfService,
  )

  enqueue_payload-OfService :
      (handle : ℕ) (sock : Sock) (len : ℕ) (p : Option Bytes)
      → Keeps (OfService env from) (enqueue_payload env ops handle sock len p)
  unfolding enqueue_payload
  enqueue_payload-OfService handle sock len none = search keeping
  enqueue_payload-OfService handle sock len (some text) = search service_rules depth 40

  accept_read-OfService :
      (handle : ℕ) (sock : Sock) (r : Read)
      → Keeps (OfService env from) (accept_read env ops handle sock r)
  unfolding accept_read enqueue
  accept_read-OfService handle sock r = search (service_rules, enqueue_payload-OfService) depth 40

  update_available_data-OfService :
      (handle : ℕ) (sock : Sock)
      → Keeps (OfService env from) (update_available_data env ops handle sock)
  unfolding update_available_data
  update_available_data-OfService handle sock = search service_rules depth 40

  read_socket-OfService :
      (t : SocketType) (handle len : ℕ)
      → Keeps (OfService env from) (read_socket env ops t handle len)
  unfolding read_socket send_data
  read_socket-OfService SocketType.tcp handle len = search service_rules depth 40
  read_socket-OfService SocketType.udp handle len = search service_rules depth 40
  read_socket-OfService SocketType.other handle len = search keeping

  ingress-OfService :
      (handle : ℕ) (sock : Sock) → Keeps (OfService env from) (ingress env ops handle sock)
  unfolding ingress
  ingress-OfService handle sock =
      search
        (keeping, update_available_data-OfService, read_socket-OfService, accept_read-OfService)
        depth 40

  ingress_each-OfService :
      (l : List (ℕ × Sock)) → Keeps (OfService env from) (ingress_each env ops l)
  unfolding ingress_each
  ingress_each-OfService [] = search keeping
  ingress_each-OfService ((handle, sock) ∷ rest) =
      let ih = ingress_each-OfService rest in search (keeping, ingress-OfService) depth 40

  ingress_all-OfService : (o : Option S) → Keeps (OfService env from) (ingress_all env ops o)
  unfolding ingress_all
  ingress_all-OfService none = search keeping
  ingress_all-OfService (some s) = ingress_each-OfService (ops.iter s)

  socket_ingress_all-OfService : Keeps (OfService env from) (socket_ingress_all env ops)
  unfolding socket_ingress_all
  socket_ingress_all-OfService = search (keeping, ingress_all-OfService) depth 40

  pub try_new-OfService : (a : ApnInfo) → Keeps (OfService env from) (try_new env ops a)
  unfolding try_new
  try_new-OfService a =
      search
        (keeping, on_service_network-OfService, connect-OfNetwork, socket_ingress_all-OfService)
        depth 40

  module _ (P : Device S → Log → Type 0) (inv : IsDeviceInvariant env from P) where
    define-Keeps : (a : ApnInfo) → Keeps P (define env ops a)
    unfolding define
    define-Keeps a = search (keeping, on_network-Keeps, define_context-OfNetwork) depth 40

    after_spin-Keeps : (a : ApnInfo) (e : NbError DeviceError) → Keeps P (after_spin env ops a e)
    unfolding after_spin
    after_spin-Keeps a NbError.would_block = search (keeping, define-Keeps) depth 40
    after_spin-Keeps a (NbError.other e) = search keeping

    pub data_service-Keeps :
        Keeps P (start_registration env ops) → (a : ApnInfo) → Keeps P (data_service env ops a)
    unfolding data_service
    data_service-Keeps starts a =
        let spun = spin-Keeps env from P inv ops starts in
        search (keeping, define-Keeps, after_spin-Keeps, try_new-OfService, on_service-Keeps) depth
          40

-- Making a data service, with all that it does to power on, set up and register the module, takes
-- the network from a state that the driver reaches to another one, whatever the outcome is: an
-- answer, an error or a run that does not end.
pub data_service-Reachable :
    (env : Env) {S Sock : Type 0} (ops : SocketSetOps S Sock) (apn_info : ApnInfo) (d : Device S)
    (l : Log)
    → Reachable env (d.network, l)
    → let r = data_service env ops apn_info d l in Reachable env (r.1.network, r.2)
data_service-Reachable env ops apn_info d l r =
    (data_service-Keeps env IsNew ops (OfDevice env IsNew) (OfDevice-IsDeviceInvariant env IsNew)
        (start_registration-OfDevice env IsNew ops) apn_info).keeps
      d l r
