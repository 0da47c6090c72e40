-- ===== src/Network/Intervening.antt =====
-- network.rs: when the driver intervenes in a registration, and what it sends then.
use fibocom_cellular_rs.Prelude.{ℕ, ◌≤◌, ◌≡◌, ◌≢◌, true, arith, ◌||◌}
use fibocom_cellular_rs.Env.{Env, Log}
use fibocom_cellular_rs.Effect.{combinators, ok}
use fibocom_cellular_rs.Registration.{
  ConnectionState, connection_state_eq, reset_statuses, RegistrationState,
}
use fibocom_cellular_rs.Network.State.{Network, send}
use fibocom_cellular_rs.Network.Urcs.{send_internal, handle_urc}
use fibocom_cellular_rs.Network.Intervene.{
  Intervention, choose, is_stuck, rf_reset, intervene, intervene_registration,
}

-- Unless it is connecting, a network is not intervened in: not even the clock is read.
pub intervene_registration-connecting :
    (env : Env) (n : Network) (l : Log)
    → n.status.conn_state ≢ ConnectionState.connecting
    → intervene_registration env n l ≡ (ok tt, n, l)
unfolding combinators intervene_registration connection_state_eq
intervene_registration-connecting env n l h = ground arith

-- An intervention is chosen only if a domain has reported the same status for `timeout`.
pub choose-is_stuck :
    (ts timeout : ℕ) (s : RegistrationState)
    → choose ts timeout s ≢ Intervention.leave
    → ((is_stuck ts timeout s.eps || is_stuck ts timeout s.csd) || is_stuck ts timeout s.psd) ≡ true
unfolding choose
choose-is_stuck ts timeout s h = ground arith

-- The number of interventions stays within the byte that the source keeps it in.
pub intervene_registration-bound :
    (env : Env) (n : Network) (l : Log)
    → n.status.registration_interventions ≤ 255
    → (intervene_registration env n l).1.status.registration_interventions ≤ 255
unfolding combinators intervene_registration intervene rf_reset send_internal handle_urc send
    reset_statuses
intervene_registration-bound env n l h = ground arith
