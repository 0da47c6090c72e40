-- ===== src/Examples/Sockets/Running.antt =====
-- examples/sockets/src/main.rs: the loop in `main`, on a device, and that it goes on.
use fibocom_cellular_rs.Prelude.{
  ℕ, zero, suc, ◌+◌, ◌<◌, ◌≤◌, ◌≡◌, refl, true, Option, [], ◌∷◌, ltb, if◌then◌else◌, arith,
}
use fibocom_cellular_rs.Command.{Bytes, SocketAddr}
use fibocom_cellular_rs.Env.{Env, Log, IsTimely}
use fibocom_cellular_rs.Effect.{
  either, M, ok, ◌>>=◌, ◌>>◌, pure, panic, get, attempt, ignore, modify, combinators,
}
use fibocom_cellular_rs.Sockets.{SocketSetOps, TcpSetOps}
use fibocom_cellular_rs.Text.{IsBounded}
use fibocom_cellular_rs.Text.Fitting.{FitsIn}
use fibocom_cellular_rs.Device.State.{Device}
use fibocom_cellular_rs.Data.Context.{ApnInfo, new_apn_info}
use fibocom_cellular_rs.Data.Ingress.{DataService}
use fibocom_cellular_rs.Data.Service.{data_service}
use fibocom_cellular_rs.Data.Ending.{IsShortInfo, data_service-Ends}
use fibocom_cellular_rs.Examples.Sockets.{Main, round}
use fibocom_cellular_rs.Examples.Sockets.Driver.{tcp_stack, IsRemovable, round-ok}

-- The variables of `main` that live across the loop's rounds.
pub record Program (S : Type 0) : Type 0 where
  pub cell_client : Device S
  pub socket : Option ℕ
  pub count : ℕ

unfoldable pub on_cell_client : {S E A : Type 0} → M (Device S) E A → M (Program S) E A
on_cell_client m p l = let r = m p.cell_client l in (r.0, record p { cell_client = r.1 }, r.2)

-- The closure has the service, which is the network and the sockets of the device, and the socket.
unfoldable pub with_service : {S E A : Type 0} → M (Main (DataService S)) E A → M (Program S) E A
with_service m p l =
    let d = p.cell_client in
    let r =
      m
        (record {
          socket = p.socket;
          network = record { network = d.network; sockets = d.sockets };
        })
        l in
    (
      r.0,
      record p {
        cell_client = record d { network = r.1.network.network; sockets = r.1.network.sockets };
        socket = r.1.socket;
      },
      r.2,
    )

-- `APNInfo::new("em")`
abbrev em : ApnInfo
em = new_apn_info (b'e' ∷ b'm' ∷ [])

em-IsShortInfo : IsShortInfo em
unfolding FitsIn new_apn_info
em-IsShortInfo = record { short_apn = omega arith; short_user_name = tt; short_password = tt }

-- 195.34.89.241:7
abbrev pub echo_server : SocketAddr
echo_server = record { ip = 195 ∷ 34 ∷ 89 ∷ 241 ∷ []; port = 7 }

-- i32::MAX
abbrev pub max_count : ℕ
max_count = 2147483647

-- `count += 1` on an `i32`, as it is with the overflow checks of a debug build.
unfoldable pub increment : {S E : Type 0} → M (Program S) E (Unit {0})
increment = do
  p ← get
  if ltb p.count max_count then modify (λ p. record p { count = p.count + 1 }) else panic

-- `message` is `format!("Whatup {}", count)`.
module _ (env : Env) {S Sock T : Type 0} (set : SocketSetOps S Sock) (tcp : TcpSetOps S T)
    (message : ℕ → Bytes) (rounds : ℕ) where
  unfoldable pub turn : {E : Type 0} → M (Program S) E (Unit {0})
  turn = do
    made ← attempt (on_cell_client (data_service env set em))
    p ← get
    either (λ _. pure tt)
        (λ _.
          ignore (with_service (round (tcp_stack env tcp) rounds echo_server (message p.count))))
        made
    increment

  -- So many rounds of the loop.
  unfoldable pub turns : {E : Type 0} → ℕ → M (Program S) E (Unit {0})
  turns zero = pure tt
  turns (suc n) = do turn; turns n

module _ (env : Env) {S Sock T : Type 0} (set : SocketSetOps S Sock) (tcp : TcpSetOps S T)
    (message : ℕ → Bytes) (rounds : ℕ) (timely : IsTimely env) (pin : env.power_pin ≡ true)
    (bounded : IsBounded env) (removable : IsRemovable tcp) where
  turn-ok :
      {E : Type 0} (p : Program S) (l : Log)
      → p.count < max_count
      → ((turn env set tcp message (suc rounds) {E = E} p l).0 ≡ ok tt)
        × ((turn env set tcp message (suc rounds) {E = E} p l).1.count ≡ p.count + 1)
  unfolding turn on_cell_client with_service increment combinators
  turn-ok {E} p l h =
      let made =
        (data_service-Ends env set timely pin bounded em em-IsShortInfo).ends p.cell_client l in
      let served = (λ (s : Main (DataService S)) (l : Log).
        round-ok env tcp rounds echo_server (message p.count) s l removable) in
      (grind arith, grind arith)

-- On a board whose clock moves on at every reading and never goes back, whose busy loops may run
-- more rounds than 30 s have ticks, and which has a power pin, with strings that take what fits and
-- a set from which every socket that is found can be removed: the application runs round after
-- round, whatever the module answers, until its counter no longer fits into an `i32`; no round
-- panics, runs on for ever or ends the loop.
pub turns-ok :
    (env : Env) {S Sock T : Type 0} (set : SocketSetOps S Sock) (tcp : TcpSetOps S T)
    (message : ℕ → Bytes) (rounds : ℕ)
    → IsTimely env
    → env.power_pin ≡ true
    → IsBounded env
    → IsRemovable tcp
    → (E : Type 0) (n : ℕ) (p : Program S) (l : Log) → p.count + n ≤ max_count
    → ((turns env set tcp message (suc rounds) {E = E} n p l).0 ≡ ok tt)
      × ((turns env set tcp message (suc rounds) {E = E} n p l).1.count ≡ p.count + n)
unfolding turns combinators
turns-ok env set tcp message rounds timely pin bounded removable E zero p l h = (refl, omega arith)
turns-ok env set tcp message rounds timely pin bounded removable E (suc n) p l h =
    let one =
      turn-ok env set tcp message rounds timely pin bounded removable {E = E} p l (omega arith) in
    let ih = turns-ok env set tcp message rounds timely pin bounded removable E n in
    (grind arith, grind arith)
