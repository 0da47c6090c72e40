-- ===== src/Device/Spin.antt =====
-- client.rs: `spin`, `process_events`, `send_at` and the socket messages.
use fibocom_cellular_rs.Prelude.{ℕ, true, ◌&&◌, Option, none, some, ◌∷◌, if◌then◌else◌}
use fibocom_cellular_rs.Command.{Command, Response, NetworkService, SignalQuality, Urc}
use fibocom_cellular_rs.Error.{NetworkError, DeviceError, GenericError, NbError, device_of_network}
use fibocom_cellular_rs.Env.{Env, Event, Log}
use fibocom_cellular_rs.Effect.{
  either, M, ok, ◌>>=◌, ◌>>◌, pure, throw, get, when, attempt, map_err,
}
use fibocom_cellular_rs.Network.{ContextState, context_state_eq, send_internal, is_connected}
use fibocom_cellular_rs.Network
use fibocom_cellular_rs.Sockets.{SocketSetOps, find_socket}
use fibocom_cellular_rs.Device.State.{
  PowerState, power_state_eq, State, state_eq, Device, on_network, net, set_context_state,
}
use fibocom_cellular_rs.Device.Power.{hard_reset}
use fibocom_cellular_rs.Device.Setup.{initialize}

module _ (env : Env) {S Sock : Type 0} (ops : SocketSetOps S Sock) where
  unfoldable pub change_socket : ℕ → (Sock → Sock) → S → S
  unfolding find_socket
  change_socket socket f s = elim (find_socket socket (ops.iter s)) [
    | none ↦ s
    | some sock ↦ ops.write s socket (f sock)
  ]

  unfoldable pub apply_socket_urc : Log → Urc → S → S
  unfolding change_socket
  apply_socket_urc l (Urc.socket_closed u) s = change_socket u.socket (ops.closed_by_remote l) s
  apply_socket_urc l (Urc.socket_data_available u) s =
      change_socket u.socket (ops.set_available_data l u.length) s
  apply_socket_urc l (Urc.socket_data_available_udp u) s =
      change_socket u.socket (ops.set_available_data l u.length) s
  apply_socket_urc l _ s = s

  -- Without a socket set no message is taken.
  unfoldable pub handle_urc_internal : M (Device S) DeviceError (Unit {0})
  unfolding apply_socket_urc
  handle_urc_internal d l = elim d.sockets [
    | none ↦ (ok tt, d, l)
    | some s ↦ elim (env.device_urc l) [
      | none ↦ (ok tt, d, Event.device_urc_polled ∷ l)
      | some urc ↦ (
        ok tt,
        record d { sockets = some (apply_socket_urc l urc s) },
        Event.device_urc_polled ∷ l,
      )
    ]
  ]

  -- A timeout in the network layer resets the module.
  unfoldable pub after_network_events : NetworkError → M (Device S) DeviceError (Unit {0})
  after_network_events (NetworkError.generic GenericError.timeout) = do
    hard_reset env env.spin_limit
    throw (DeviceError.generic GenericError.timeout)
  after_network_events e = throw (device_of_network e)

  unfoldable pub process_events : M (Device S) DeviceError (Unit {0})
  unfolding power_state_eq
  process_events = do
    d ← get
    if power_state_eq d.power_state PowerState.on
        then (do
          handle_urc_internal
          result ← attempt (on_network (Network.process_events env))
          either after_network_events (λ _. pure tt) result)
        else throw DeviceError.uninitialized

  unfoldable pub send_at : (c : Command) → M (Device S) DeviceError (Response c)
  unfolding state_eq
  send_at c = do
    d ← get
    if state_eq d.state State.off
        then throw DeviceError.uninitialized
        else net (send_internal env c true)

  unfoldable pub signal_strength : M (Device S) DeviceError SignalQuality
  signal_strength = send_at (Command.network_service NetworkService.get_signal_quality)

  -- What `spin` says of a device whose initialization has not failed.
  unfoldable pub settle : M (Device S) (NbError DeviceError) (Unit {0})
  unfolding is_connected state_eq context_state_eq
  settle = do
    d ← get
    if is_connected d.network && state_eq d.state State.fully_initialized then pure tt else (do
      when (context_state_eq d.network.context_state ContextState.active)
          (set_context_state ContextState.activating)
      throw NbError.would_block)

  unfoldable pub spin : M (Device S) (NbError DeviceError) (Unit {0})
  unfolding settle
  spin = do
    res ← attempt (initialize env ops)
    map_err NbError.other process_events
    either (λ e. throw (NbError.other e)) (λ _. settle) res

  unfoldable pub set_socket_storage : S → Device S → Device S
  set_socket_storage s d = record d { sockets = some (ops.prune s) }

unfoldable pub take_socket_storage : {S : Type 0} → Device S → Device S × Option S
take_socket_storage d = (record d { sockets = none }, d.sockets)
