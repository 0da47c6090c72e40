-- ===== src/Network/State.antt =====
-- network.rs: `AtTx`, `Network`, and `ContextState` of services/data/mod.rs.
use fibocom_cellular_rs.Prelude.{ℕ, ◌+◌, Bool, true, false, some, ◌∷◌, inl, inr, min}
use fibocom_cellular_rs.Command.{
  Command, Response, MobileControl, NetworkService, Psn, IpTransportLayer,
}
use fibocom_cellular_rs.Error.{AtError, NetworkError}
use fibocom_cellular_rs.Env.{Env, Event}
use fibocom_cellular_rs.Effect.{M, ok, err, now, modify, ◌>>=◌, ◌>>◌}
use fibocom_cellular_rs.Registration.{ConnectionState, RegistrationState, connection_state_eq}
use fibocom_cellular_rs.Registration

pub data ContextState : Type 0 where
  setup activating active : ContextState

unfoldable pub context_state_eq : ContextState → ContextState → Bool
context_state_eq ContextState.setup ContextState.setup = true
context_state_eq ContextState.activating ContextState.activating = true
context_state_eq ContextState.active ContextState.active = true
context_state_eq _ _ = false

-- The client and the subscription are the environment's.
pub record AtTx : Type 0 where
  -- u8
  pub consecutive_timeouts : ℕ

pub record Network : Type 0 where
  pub status : RegistrationState
  pub context_state : ContextState
  pub at_tx : AtTx

unfoldable pub new : AtTx → Network
unfolding Registration.new
new at_tx = record { status = Registration.new; context_state = ContextState.setup; at_tx = at_tx }

-- u8::saturating_add
abbrev pub saturating_add : ℕ → ℕ → ℕ
saturating_add a b = min (a + b) 255

-- ATTEMPTS of a command: those whose struct says `attempts = 1`.
unfoldable pub attempts : Env → Command → ℕ
attempts env (Command.mobile_control MobileControl.module_switch_off) = 1
attempts env (Command.mobile_control (MobileControl.set_module_functionality f r)) = 1
attempts env (Command.mobile_control MobileControl.get_module_functionality) = 1
attempts env (Command.network_service (NetworkService.set_operator_selection m f)) = 1
attempts env (Command.network_service NetworkService.get_operator_selection) = 1
attempts env (Command.psn (Psn.set_packet_switched_action p a)) = 1
attempts env (Command.psn (Psn.set_gprs_attached s)) = 1
attempts env (Command.psn Psn.get_gprs_attached) = 1
attempts env (Command.psn (Psn.set_pdp_context_state s c)) = 1
attempts env (Command.psn Psn.get_pdp_context_state) = 1
attempts env (Command.ip_transport_layer (IpTransportLayer.close_socket s)) = 1
attempts env (Command.ip_transport_layer (IpTransportLayer.connect_socket s a)) = 1
attempts env (Command.resolve_name_ip t s) = 1
attempts env _ = env.default_attempts

-- The errors that `send` names; all others become `Error::AT(atat::Error::Error)`.
unfoldable pub network_error : AtError → NetworkError
network_error AtError.timeout = NetworkError.at AtError.timeout
network_error AtError.read = NetworkError.at AtError.read
network_error AtError.write = NetworkError.at AtError.write
network_error AtError.invalid_response = NetworkError.at AtError.invalid_response
network_error AtError.aborted = NetworkError.at AtError.aborted
network_error AtError.parse = NetworkError.at AtError.parse
network_error _ = NetworkError.at AtError.error

-- What an error does to the counter.
unfoldable pub count_timeout : Env → Command → AtError → AtTx → AtTx
unfolding attempts
count_timeout env c AtError.timeout tx = record tx {
  consecutive_timeouts = saturating_add tx.consecutive_timeouts (attempts env c);
}
count_timeout env c _ tx = tx

module _ (env : Env) where
  -- AtTx::send
  unfoldable pub send : (c : Command) → M AtTx NetworkError (Response c)
  unfolding network_error count_timeout
  send c tx l = elim (env.send_retry l c) [
    | inl e ↦ (err (network_error e), count_timeout env c e tx, Event.sent c ∷ l)
    | inr res ↦ (ok res, record tx { consecutive_timeouts = 0 }, Event.sent c ∷ l)
  ]

  -- AtTx::send_ignore_timeout: the source repeats the body of `send`.
  unfoldable pub send_ignore_timeout : (c : Command) → M AtTx NetworkError (Response c)
  unfolding network_error count_timeout
  send_ignore_timeout c tx l = elim (env.send_retry l c) [
    | inl e ↦ (err (network_error e), count_timeout env c e tx, Event.sent c ∷ l)
    | inr res ↦ (ok res, record tx { consecutive_timeouts = 0 }, Event.sent c ∷ l)
  ]

-- An action on a part of the state.
abbrev pub on_at_tx : {E A : Type 0} → M AtTx E A → M Network E A
on_at_tx m n l = let r = m n.at_tx l in (r.0, record n { at_tx = r.1 }, r.2)

abbrev pub on_status : {E A : Type 0} → M RegistrationState E A → M Network E A
on_status m n l = let r = m n.status l in (r.0, record n { status = r.1 }, r.2)

abbrev pub modify_status :
    {E : Type 0} → (RegistrationState → RegistrationState) → M Network E (Unit {0})
modify_status f = modify λ n. record n { status = f n.status }

unfoldable pub is_connected : Network → Bool
unfolding connection_state_eq
is_connected n = connection_state_eq n.status.conn_state ConnectionState.connected

unfoldable pub reset_reg_time : Env → {E : Type 0} → M Network E (Unit {0})
reset_reg_time env = do
  t ← now env
  modify_status (λ s. record s { reg_start_time = some t })
  modify_status (λ s. record s { reg_check_time = s.reg_start_time })
