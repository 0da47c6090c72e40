-- ===== src/Data/Lent.antt =====
-- services/data/mod.rs: what a data service that was made says of the device it borrows from.
use fibocom_cellular_rs.Prelude.{ℕ, ◌≡◌, Bool, false, arith, none, some, Option, List, [], ◌∷◌}
use fibocom_cellular_rs.Command.{Command, Bytes}
use fibocom_cellular_rs.Env.{Env, Log}
use fibocom_cellular_rs.Error.{NbError}
use fibocom_cellular_rs.Effect.{combinators, when, map_err}
use fibocom_cellular_rs.Effect.Laws.{Keeps, keeping, Keeps-ignore, Keeps->>}
use fibocom_cellular_rs.Registration.{RegistrationState}
use fibocom_cellular_rs.Network.{ContextState, send_internal, send}
use fibocom_cellular_rs.Sockets.{SocketType, SocketSetOps}
use fibocom_cellular_rs.Hex.{HexResult}
use fibocom_cellular_rs.Data.Ingress.{
  DataService, Read, on_service_network, send_data, demangle, store, update_available_data,
  read_socket, enqueue, enqueue_payload, accept_read, ingress, ingress_each, ingress_all,
  socket_ingress_all,
}

module _ (env : Env) {S Sock : Type 0} (ops : SocketSetOps S Sock) (s0 : RegistrationState)
    (c0 : ContextState) where
  abbrev IsLike : DataService S → Log → Type 0
  IsLike d l = (d.network.status ≡ s0) × (d.network.context_state ≡ c0)

  send_internal-IsLike :
      (c : Command) → Keeps IsLike (on_service_network (send_internal env c false))
  unfolding send_internal send combinators on_service_network
  send_internal-IsLike c = record { keeps = λ d l p. ground arith }

  store-IsLike : {E : Type 0} (h : ℕ) (sock : Sock) → Keeps {E = E} IsLike (store env ops h sock)
  unfolding combinators
  store-IsLike h sock = record { keeps = λ d l p. p }

  ruleset like_rules = (keeping, send_internal-IsLike, store-IsLike)

  send_data-IsLike : (c : Command) → Keeps IsLike (send_data env c)
  unfolding send_data
  send_data-IsLike c = search like_rules depth 40

  update_available_data-IsLike :
      (h : ℕ) (sock : Sock) → Keeps IsLike (update_available_data env ops h sock)
  unfolding update_available_data
  update_available_data-IsLike h sock = search like_rules depth 40

  read_socket-IsLike : (t : SocketType) (h len : ℕ) → Keeps IsLike (read_socket env ops t h len)
  unfolding read_socket
  read_socket-IsLike SocketType.tcp h len = search (like_rules, send_data-IsLike) depth 40
  read_socket-IsLike SocketType.udp h len = search (like_rules, send_data-IsLike) depth 40
  read_socket-IsLike SocketType.other h len = search like_rules depth 40

  demangle-IsLike : (r : HexResult Bytes) → Keeps IsLike (demangle r)
  unfolding demangle
  demangle-IsLike (HexResult.ok b) = search like_rules
  demangle-IsLike (HexResult.err e) = search like_rules
  demangle-IsLike HexResult.panic = record { keeps = λ d l p. p }

  enqueue_payload-IsLike :
      (h : ℕ) (sock : Sock) (len : ℕ) (o : Option Bytes)
      → Keeps IsLike (enqueue_payload env ops h sock len o)
  unfolding enqueue_payload
  enqueue_payload-IsLike h sock len none = search like_rules
  enqueue_payload-IsLike h sock len (some text) = search (like_rules, demangle-IsLike) depth 40

  accept_read-IsLike :
      (h : ℕ) (sock : Sock) (r : Read) → Keeps IsLike (accept_read env ops h sock r)
  unfolding accept_read enqueue
  accept_read-IsLike h sock r = search (like_rules, enqueue_payload-IsLike) depth 40

  ingress-IsLike : (h : ℕ) (sock : Sock) → Keeps IsLike (ingress env ops h sock)
  unfolding ingress
  ingress-IsLike h sock =
      search (like_rules, update_available_data-IsLike, read_socket-IsLike, accept_read-IsLike)
        depth 40

  ingress_each-IsLike : (socks : List (ℕ × Sock)) → Keeps IsLike (ingress_each env ops socks)
  unfolding ingress_each
  ingress_each-IsLike [] = search like_rules
  ingress_each-IsLike ((h, sock) ∷ rest) =
      let ih = ingress_each-IsLike rest in Keeps->> (Keeps-ignore (ingress-IsLike h sock)) ih

  ingress_all-IsLike : (o : Option S) → Keeps IsLike (ingress_all env ops o)
  unfolding ingress_all
  ingress_all-IsLike none = search like_rules
  ingress_all-IsLike (some s) = ingress_each-IsLike (ops.iter s)

  socket_ingress_all-IsLike : Keeps IsLike (socket_ingress_all env ops)
  unfolding socket_ingress_all
  socket_ingress_all-IsLike = search (like_rules, ingress_all-IsLike) depth 40

  -- The part of `try_new` behind `connect`.
  ingress_if-IsLike :
      (b : Bool) → Keeps IsLike (when b (map_err NbError.other (socket_ingress_all env ops)))
  ingress_if-IsLike b = search (like_rules, socket_ingress_all-IsLike) depth 40

  pub ingress_if_keeps :
      (b : Bool) (d : DataService S) (l : Log)
      → d.network.status ≡ s0
      → d.network.context_state ≡ c0
      → ((when b (map_err NbError.other (socket_ingress_all env ops)) d l).1.network.status ≡ s0)
        × ((when b (map_err NbError.other (socket_ingress_all env ops)) d l).1.network.context_state
            ≡ c0)
  ingress_if_keeps b d l hs hc = (ingress_if-IsLike b).keeps d l (hs, hc)
