-- ===== src/Network/Tests.antt =====
-- The theorems on network.rs and blocking_timer.rs at concrete states.
use fibocom_cellular_rs.Prelude.{
  ◌+◌, ◌≤◌, ◌<◌, ◌≡◌, ◌≢◌, refl, List, [], ◌∷◌, false, some, arith, if◌then◌else◌,
}
use fibocom_cellular_rs.Command.{Command}
use fibocom_cellular_rs.Env.{Env, commands, Duration}
use fibocom_cellular_rs.Error.{NetworkError, GenericError}
use fibocom_cellular_rs.Effect.{ok, err}
use fibocom_cellular_rs.BlockingTimer.{wait}
use fibocom_cellular_rs.BlockingTimer.Waiting.{wait_lem}
use fibocom_cellular_rs.Registration.{Status, ConnectionState, RegistrationState}
use fibocom_cellular_rs.Network.State.{AtTx}
use fibocom_cellular_rs.Network.Watch.{has_service, check_registration_state, update_registration}
use fibocom_cellular_rs.Network.Events.{poll_registration, process_events}
use fibocom_cellular_rs.Network.Settled.{check_registration_state_lem}
use fibocom_cellular_rs.Network.Polling.{queries, poll_registration-due}
use fibocom_cellular_rs.Network.State.{new}
use fibocom_cellular_rs.Network.Urcs.{send_internal}
use fibocom_cellular_rs.Network.Sound.{IsPast}
use fibocom_cellular_rs.Network.Reachable.{
  World, after, Reachable, begin, sending, updating, Replays, Reachable-bounds, Reachable-Replays,
}
use fibocom_cellular_rs.Network.Silence.{after_all, silence-noticed}
use fibocom_cellular_rs.Samples.{
  board_env, board_env-IsAdvancing, board_env-IsMonotone, dead_env, connected_network,
  connecting_network, connected_status,
}

-- A module that has not answered four commands in a row.
abbrev silent_tx : AtTx
silent_tx = record { consecutive_timeouts = 12 }

-- The same clock, 20 ticks on.
abbrev late_env : Env
late_env = record dead_env { now = λ l. dead_env.now l + 20 }

-- LTE and GSM have both been denied since 0.
abbrev denied_status : RegistrationState
denied_status = record connected_status {
  csd = record { status = Status.denied; updated = some 30; started = some 0 };
  eps = record { status = Status.denied; updated = some 30; started = some 0 };
}

wait_lem_example :
    ((wait dead_env {E = NetworkError} (Duration.secs 5) connected_network []).0 ≡ ok tt)
    × ((wait dead_env {E = NetworkError} (Duration.secs 5) connected_network []).1
        ≡ connected_network)
    × (commands (wait dead_env {E = NetworkError} (Duration.secs 5) connected_network []).2 ≡ [])
    × (5 < dead_env.now (wait dead_env {E = NetworkError} (Duration.secs 5) connected_network []).2)
wait_lem_example =
    wait_lem dead_env (record { step = λ l. omega arith }) NetworkError (Duration.secs 5)
      connected_network [] (omega arith)

check_registration_state_lem_example :
    ((check_registration_state dead_env {E = NetworkError} connecting_network []).0 ≡ ok tt)
    × (commands (check_registration_state dead_env {E = NetworkError} connecting_network []).2 ≡ [])
    × (connecting_network.status.conn_state ≡ ConnectionState.disconnected
        → check_registration_state dead_env {E = NetworkError} connecting_network []
          ≡ (ok tt, connecting_network, []))
    × (connecting_network.status.conn_state ≢ ConnectionState.disconnected
        → (check_registration_state dead_env {E = NetworkError} connecting_network
            []).1.status.conn_state
          ≡ (if has_service connecting_network
              then ConnectionState.connected
              else ConnectionState.connecting))
    × (connecting_network.status.conn_state ≡ ConnectionState.connected
        → has_service connecting_network ≡ false
        → (check_registration_state dead_env {E = NetworkError} connecting_network
            []).1.status.registration_interventions
          ≡ 1)
check_registration_state_lem_example = check_registration_state_lem dead_env connecting_network []

poll_registration-due_example :
    (commands (poll_registration late_env connected_network []).2 ≡ queries [])
    × ((e : NetworkError)
        → (poll_registration late_env connected_network []).0 ≡ err e
        → (e ≡ NetworkError.generic GenericError.timeout)
          × ((poll_registration late_env connected_network []).1.status.conn_state
              ≡ ConnectionState.connecting))
poll_registration-due_example =
    poll_registration-due late_env connected_network [] 0 refl (omega arith)

-- A module that is sent a command at power-on, whose registration is read once.
abbrev reached : World
reached = after (update_registration board_env) (
    after (send_internal board_env Command.at false)
      (new (record { consecutive_timeouts = 0 }), []))

reached-Reachable : Reachable board_env reached
reached-Reachable = updating _ (sending Command.at false _ (begin _ refl))

Reachable-bounds_example :
    (reached.0.at_tx.consecutive_timeouts ≤ 255)
    × (1 ≤ reached.0.status.registration_interventions)
    × (reached.0.status.registration_interventions ≤ 255)
    × IsPast board_env reached.1 reached.0.status.reg_check_time
    × IsPast board_env reached.1 reached.0.status.reg_start_time
    × IsPast board_env reached.1 reached.0.status.imsi_check_time
Reachable-bounds_example =
    Reachable-bounds board_env board_env-IsAdvancing board_env-IsMonotone reached.0 reached.1
      reached-Reachable

Reachable-Replays_example :
    Replays reached.0.status.csd × Replays reached.0.status.psd × Replays reached.0.status.eps
Reachable-Replays_example =
    Reachable-Replays board_env board_env-IsAdvancing board_env-IsMonotone reached.0 reached.1
      reached-Reachable

abbrev eleven : List Command
eleven =
    Command.at ∷ Command.at ∷ Command.at ∷ Command.at ∷ Command.at ∷ Command.at ∷ Command.at
    ∷ Command.at ∷ Command.at ∷ Command.at ∷ Command.at ∷ []

silence-noticed_example :
    let w = after_all dead_env eleven (connected_network, []) in
    let r = process_events dead_env w.0 w.1 in
    (r.0 ≡ err (NetworkError.generic GenericError.timeout)) × (r.1.at_tx.consecutive_timeouts ≡ 0)
silence-noticed_example =
    silence-noticed dead_env (λ l c. refl) (omega arith) eleven connected_network [] (omega arith)
