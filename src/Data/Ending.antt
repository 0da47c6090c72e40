-- ===== src/Data/Ending.antt =====
-- services/data/mod.rs: on a board whose loops end, and on which the power pin is connected, a data
-- service is made, or an error returned, without a panic or a run for ever.
use fibocom_cellular_rs.Prelude.{
  ℕ, zero, suc, true, ◌≡◌, ◌≢◌, ◌%◌, ◌⊎◌, inl, inr, none, some, Option, [], ◌∷◌, List, length,
  arith,
}
use fibocom_cellular_rs.Command.{Bytes, PacketSwitchedParam}
use fibocom_cellular_rs.Error.{DataError, NbError, DeviceError}
use fibocom_cellular_rs.Env.{Env, Log, Duration, IsTimely}
use fibocom_cellular_rs.Effect.{M, Fault, halt}
use fibocom_cellular_rs.Effect.Ends.{Ends, ending}
use fibocom_cellular_rs.BlockingTimer.Waiting.{wait-Ends}
use fibocom_cellular_rs.Hex.{HexResult, from_hex}
use fibocom_cellular_rs.Hex.InPlace.{from_hex-odd}
use fibocom_cellular_rs.Hex.RoundTrip.{from_hex_cases}
use fibocom_cellular_rs.Network.{Network}
use fibocom_cellular_rs.Network.Ending.{send_internal-Ends}
use fibocom_cellular_rs.Sockets.{SocketType, SocketSetOps}
use fibocom_cellular_rs.Device.State.{Device}
use fibocom_cellular_rs.Device.Ending.Polling.{Ends-on_network}
use fibocom_cellular_rs.Device.Ending.Spinning.{spin-Ends}
use fibocom_cellular_rs.Text.{IsBounded}
use fibocom_cellular_rs.Text.Fitting.{FitsIn, string-Ends}
use fibocom_cellular_rs.Data.Context.{
  Apn, ApnInfo, define_apn, define_context, attach_network, poll_attached, activate_context,
  activate_context_upsd, activate_profile, map_profile, connect, set_config_if, given_apn,
}
use fibocom_cellular_rs.Data.Ingress.{
  DataService, on_service_network, send_data, demangle, Read, update_available_data, read_socket,
  enqueue_payload, enqueue, accept_read, ingress, ingress_each, ingress_all, socket_ingress_all,
}
use fibocom_cellular_rs.Data.Service.{on_service, try_new, define, after_spin, data_service}

-- The access point, the user name and the password fit into the strings of a profile's parameters.
pub record IsShortInfo (a : ApnInfo) : Type 0 where
  pub short_apn : FitsIn 99 (given_apn a.apn)
  pub short_user_name : FitsIn 64 a.user_name
  pub short_password : FitsIn 64 a.password

module _ (env : Env) where
  map_profile-Ends : (cid p : ℕ) (c : _) → Ends (map_profile env cid p c)
  unfolding map_profile
  map_profile-Ends cid p (PacketSwitchedParam.map_profile c) =
      search (ending, send_internal-Ends) depth 40
  map_profile-Ends cid p _ = search ending

  activate_profile-Ends : (cid p : ℕ) → Ends (activate_profile env cid p)
  unfolding activate_profile
  activate_profile-Ends cid p = search (ending, send_internal-Ends, map_profile-Ends) depth 40

  activate_context-Ends : (cid p : ℕ) → Ends (activate_context env cid p)
  unfolding activate_context
  activate_context-Ends cid p = search (ending, send_internal-Ends, activate_profile-Ends) depth 40

  set_config_if-Ends :
      (p n : ℕ) (param : Bytes → PacketSwitchedParam) (o : Option Bytes)
      → IsBounded env
      → FitsIn n o
      → Ends (set_config_if env p n param o)
  unfolding FitsIn
  set_config_if-Ends p n param none b h = search ending
  set_config_if-Ends p n param (some t) b h =
      let fits = string-Ends env {S = Network} {E = NbError DataError} n t b h in
      search (ending, send_internal-Ends) depth 40

  activate_context_upsd-Ends :
      (p : ℕ) (a : ApnInfo) → IsBounded env → IsShortInfo a → Ends (activate_context_upsd env p a)
  unfolding activate_context_upsd
  activate_context_upsd-Ends p a b h =
      let apn = set_config_if-Ends p 99 PacketSwitchedParam.apn (given_apn a.apn) b h.short_apn in
      let user =
        set_config_if-Ends p 64 PacketSwitchedParam.username a.user_name b h.short_user_name in
      let pass =
        set_config_if-Ends p 64 PacketSwitchedParam.password a.password b h.short_password in
      search (ending, send_internal-Ends) depth 40

  define_apn-Ends : (cid : ℕ) (a : Apn) → Ends (define_apn env cid a)
  unfolding define_apn
  define_apn-Ends cid (Apn.given a) = search (ending, send_internal-Ends) depth 40
  define_apn-Ends cid Apn.automatic = search ending

  define_context-Ends : (cid : ℕ) (a : ApnInfo) → Ends (define_context env cid a)
  unfolding define_context
  define_context-Ends cid a = search (ending, send_internal-Ends, define_apn-Ends) depth 40

  module _ (timely : IsTimely env) where
    poll_attached-Ends : (n : ℕ) → Ends (poll_attached env n)
    unfolding poll_attached
    poll_attached-Ends zero = search ending
    poll_attached-Ends (suc n) =
        let ih = poll_attached-Ends n in
        let second =
          wait-Ends env {S = Network} {E = NbError DataError} (Duration.secs 1) timely.advancing
            (let limit = timely.limit in omega arith) in
        search (ending, send_internal-Ends) depth 40

    connect-Ends : (a : ApnInfo) → IsBounded env → IsShortInfo a → Ends (connect env a)
    unfolding connect attach_network
    connect-Ends a b h =
        let upsd = (λ (p : ℕ). activate_context_upsd-Ends p a b h) in
        search (ending, poll_attached-Ends, activate_context-Ends, upsd) depth 40

parity : (n : ℕ) → (n % 2 ≡ 0) ⊎ (n % 2 ≡ 1)
parity n = ground arith

-- Decoding never reads beyond the text.
from_hex_safe : (hex : List ℕ) → from_hex hex ≢ HexResult.panic
from_hex_safe hex h = elim (parity (length hex)) [
  | inl even ↦ elim (from_hex_cases hex even) [
    | inl (_, (bytes, e, _, _)) ↦ ground arith
    | inr (_, e) ↦ ground arith
  ]
  | inr odd ↦ let e = from_hex-odd hex odd in ground arith
]

pub Ends-on_service_network :
    {S E A : Type 0} {m : M Network E A} → Ends m → Ends (on_service_network {S = S} m)
unfolding on_service_network
Ends-on_service_network h = record { ends = λ d l x e. h.ends d.network l x e }

pub Ends-on_service : {S E A : Type 0} {m : M (DataService S) E A} → Ends m → Ends (on_service m)
unfolding on_service
Ends-on_service h = record {
  ends = λ d l x e. h.ends (record { network = d.network; sockets = d.sockets }) l x e;
}

demangle-Ends : {S : Type 0} (text : Bytes) → Ends (demangle {S = S} (from_hex text))
unfolding demangle
demangle-Ends text = record { ends = λ s l x h. let safe = from_hex_safe text in ground arith }

module _ (env : Env) {S Sock : Type 0} (ops : SocketSetOps S Sock) where
  ruleset service_rules = (ending, Ends-on_service_network, send_internal-Ends, demangle-Ends)

  enqueue_payload-Ends :
      (handle : ℕ) (sock : Sock) (len : ℕ) (p : Option Bytes)
      → Ends (enqueue_payload env ops handle sock len p)
  unfolding enqueue_payload
  enqueue_payload-Ends handle sock len none = search ending
  enqueue_payload-Ends handle sock len (some text) = search service_rules depth 40

  accept_read-Ends :
      (handle : ℕ) (sock : Sock) (r : Read) → Ends (accept_read env ops handle sock r)
  unfolding accept_read enqueue
  accept_read-Ends handle sock r = search (ending, enqueue_payload-Ends) depth 40

  update_available_data-Ends :
      (handle : ℕ) (sock : Sock) → Ends (update_available_data env ops handle sock)
  unfolding update_available_data
  update_available_data-Ends handle sock = search service_rules depth 40

  read_socket-Ends : (t : SocketType) (handle len : ℕ) → Ends (read_socket env ops t handle len)
  unfolding read_socket send_data
  read_socket-Ends SocketType.tcp handle len = search service_rules depth 40
  read_socket-Ends SocketType.udp handle len = search service_rules depth 40
  read_socket-Ends SocketType.other handle len = search ending

  ingress-Ends : (handle : ℕ) (sock : Sock) → Ends (ingress env ops handle sock)
  unfolding ingress
  ingress-Ends handle sock =
      search (ending, update_available_data-Ends, read_socket-Ends, accept_read-Ends) depth 40

  ingress_each-Ends : (l : List (ℕ × Sock)) → Ends (ingress_each env ops l)
  unfolding ingress_each
  ingress_each-Ends [] = search ending
  ingress_each-Ends ((handle, sock) ∷ rest) =
      let ih = ingress_each-Ends rest in search (ending, ingress-Ends) depth 40

  ingress_all-Ends : (o : Option S) → Ends (ingress_all env ops o)
  unfolding ingress_all
  ingress_all-Ends none = search ending
  ingress_all-Ends (some s) = ingress_each-Ends (ops.iter s)

  pub socket_ingress_all-Ends : Ends (socket_ingress_all env ops)
  unfolding socket_ingress_all
  socket_ingress_all-Ends = search (ending, ingress_all-Ends) depth 40

  module _ (timely : IsTimely env) where
    try_new-Ends : (a : ApnInfo) → IsBounded env → IsShortInfo a → Ends (try_new env ops a)
    unfolding try_new
    try_new-Ends a b h =
        let connected = connect-Ends env timely a b h in
        search (ending, Ends-on_service_network, socket_ingress_all-Ends) depth 40

    define-Ends : (a : ApnInfo) → Ends (define env ops a)
    unfolding define
    define-Ends a = search (ending, Ends-on_network, define_context-Ends) depth 40

    after_spin-Ends : (a : ApnInfo) (e : NbError DeviceError) → Ends (after_spin env ops a e)
    unfolding after_spin
    after_spin-Ends a NbError.would_block = search (ending, define-Ends) depth 40
    after_spin-Ends a (NbError.other e) = search ending

    pub data_service-Ends :
        env.power_pin ≡ true
        → IsBounded env
        → (a : ApnInfo) → IsShortInfo a
        → Ends (data_service env ops a)
    unfolding data_service
    data_service-Ends pin b a h =
        let tried = try_new-Ends a b h in
        let spun = spin-Ends env S timely pin ops in
        search (ending, define-Ends, after_spin-Ends, Ends-on_service) depth 40

-- On a board whose clock moves on at every reading and never goes back, whose busy loops may run
-- more rounds than 30 s have ticks, and which has a power pin, with strings that take what fits and
-- an access point, a user name and a password that do, making a data service ends: it neither
-- panics, whatever the module answers, reports and hands over, nor runs on for ever.
pub data_service-ends :
    (env : Env) {S Sock : Type 0} (ops : SocketSetOps S Sock)
    → IsTimely env
    → env.power_pin ≡ true
    → IsBounded env
    → (apn_info : ApnInfo) → IsShortInfo apn_info
    → (d : Device S) (l : Log) (x : Fault) → (data_service env ops apn_info d l).0 ≢ halt x
data_service-ends env ops timely pin b apn_info h =
    (data_service-Ends env ops timely pin b apn_info h).ends
