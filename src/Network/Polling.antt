-- ===== src/Network/Polling.antt =====
-- network.rs: the polling of the registration.
use fibocom_cellular_rs.Prelude.{ℕ, ◌+◌, ◌≤◌, ◌<◌, List, ◌∷◌, ◌≡◌, ◌≢◌, false, arith, some}
use fibocom_cellular_rs.Command.{Command, MobileControl, NetworkService, Psn}
use fibocom_cellular_rs.Env.{Env, Log, Event, commands, ticks}
use fibocom_cellular_rs.Error.{NetworkError, GenericError}
use fibocom_cellular_rs.Effect.{Fault, ok, err, halt, combinators}
use fibocom_cellular_rs.Registration.{
  compare_and_set, RegistrationState, ConnectionState, connection_state_eq,
}
use fibocom_cellular_rs.Registration.Params.{RegistrationParams}
use fibocom_cellular_rs.Network.State.{Network, send}
use fibocom_cellular_rs.Network.Urcs.{send_internal}
use fibocom_cellular_rs.Network.Watch.{
  has_passed, update_creg, update_cgreg, update_cereg, update_registration,
}
use fibocom_cellular_rs.Network.Events.{registration_check_interval, poll_registration}

-- The queries of one poll, newest first, behind the commands of before.
abbrev pub queries : List Command → List Command
queries before =
    Command.psn Psn.get_eps_network_registration_status
    ∷ Command.psn Psn.get_gprs_network_registration_status
    ∷ Command.network_service NetworkService.get_network_registration_status
    ∷ Command.mobile_control MobileControl.get_extended_error_report
    ∷ before

module _ (env : Env) where
  compare_and_set-quiet :
      (p : RegistrationParams) (s : RegistrationState) (l : Log)
      → ((compare_and_set {E = NetworkError} env p s l).0 ≡ ok tt)
        × (commands (compare_and_set {E = NetworkError} env p s l).2 ≡ commands l)
  unfolding compare_and_set combinators
  compare_and_set-quiet p s l = ground arith

  send_internal-quiet :
      (c : Command) (n : Network) (l : Log)
      → ((x : Fault) → (send_internal env c false n l).0 ≢ halt x)
        × (commands (send_internal env c false n l).2 ≡ c ∷ commands l)
  unfolding send_internal send combinators
  send_internal-quiet c n l = (λ x. ground arith, ground arith)

  update_creg-quiet :
      (n : Network) (l : Log)
      → ((update_creg env n l).0 ≡ ok tt)
        × (commands (update_creg env n l).2
            ≡ Command.network_service NetworkService.get_network_registration_status ∷ commands l)
  unfolding update_creg combinators
  update_creg-quiet n l =
      let sc =
        send_internal-quiet (Command.network_service NetworkService.get_network_registration_status)
          n l in
      let cq = compare_and_set-quiet in (grind arith, grind arith)

  update_cgreg-quiet :
      (n : Network) (l : Log)
      → ((update_cgreg env n l).0 ≡ ok tt)
        × (commands (update_cgreg env n l).2
            ≡ Command.psn Psn.get_gprs_network_registration_status ∷ commands l)
  unfolding update_cgreg combinators
  update_cgreg-quiet n l =
      let sc = send_internal-quiet (Command.psn Psn.get_gprs_network_registration_status) n l in
      let cq = compare_and_set-quiet in (grind arith, grind arith)

  update_cereg-quiet :
      (n : Network) (l : Log)
      → ((update_cereg env n l).0 ≡ ok tt)
        × (commands (update_cereg env n l).2
            ≡ Command.psn Psn.get_eps_network_registration_status ∷ commands l)
  unfolding update_cereg combinators
  update_cereg-quiet n l =
      let sc = send_internal-quiet (Command.psn Psn.get_eps_network_registration_status) n l in
      let cq = compare_and_set-quiet in (grind arith, grind arith)

-- Whatever the module answers, an update of the registration succeeds and sends the same four
-- queries.
pub update_registration-queries :
    (env : Env) (n : Network) (l : Log)
    → ((update_registration env n l).0 ≡ ok tt)
      × (commands (update_registration env n l).2 ≡ queries (commands l))
unfolding update_registration combinators
update_registration-queries env n l =
    let sc =
      send_internal-quiet env (Command.mobile_control MobileControl.get_extended_error_report) n
        l in
    let creg = update_creg-quiet env in
    let cgreg = update_cgreg-quiet env in
    let cereg = update_cereg-quiet env in (grind arith, grind arith)

-- Within the interval after the last poll, and with a clock that has not gone back, the poll
-- only reads the clock.
pub poll_registration-throttle :
    (env : Env) (n : Network) (l : Log) (last : ℕ)
    → n.status.reg_check_time ≡ some last
    → last ≤ env.now l
    → env.now l < last + ticks env registration_check_interval
    → poll_registration env n l ≡ (ok tt, n, Event.clock_read ∷ l)
unfolding poll_registration has_passed combinators
poll_registration-throttle env n l last h a b = ground arith

-- Once the interval has passed, a poll sends the four queries, and it fails only by a timeout and
-- only while connecting.
pub poll_registration-due :
    (env : Env) (n : Network) (l : Log) (last : ℕ)
    → n.status.reg_check_time ≡ some last
    → last + ticks env registration_check_interval ≤ env.now l
    → (commands (poll_registration env n l).2 ≡ queries (commands l))
      × ((e : NetworkError)
          → (poll_registration env n l).0 ≡ err e
          → (e ≡ NetworkError.generic GenericError.timeout)
            × ((poll_registration env n l).1.status.conn_state ≡ ConnectionState.connecting))
unfolding poll_registration has_passed connection_state_eq combinators
poll_registration-due env n l last h a =
    let uq = update_registration-queries env in (grind arith, λ e r. grind arith)
