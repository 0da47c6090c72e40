-- ===== src/Network/Urcs.antt =====
-- network.rs: `handle_urc` and `send_internal`.
use fibocom_cellular_rs.Prelude.{ℕ, Bool, none, some, ◌∷◌, ◌==◌, if◌then◌else◌}
use fibocom_cellular_rs.Command.{Command, Response, Urc}
use fibocom_cellular_rs.Error.{NetworkError}
use fibocom_cellular_rs.Env.{Env, Event}
use fibocom_cellular_rs.Effect.{M, ok, ◌>>◌, when, ignore}
use fibocom_cellular_rs.Network.State.{ContextState, Network, send, on_at_tx}

-- PROFILE_ID of services/data/mod.rs
abbrev pub profile_id : ℕ
profile_id = 1

-- What the closure in `handle_urc` does to `ctx_state`.
unfoldable pub apply_urc : Urc → ContextState → ContextState
apply_urc (Urc.data_connection_activated u) ctx =
    if u.result == 0 then ContextState.active else ContextState.setup
apply_urc (Urc.data_connection_deactivated u) ctx =
    if u.profile_id == profile_id then ContextState.activating else ctx
apply_urc _ ctx = ctx

module _ (env : Env) where
  -- At most one message is taken.
  unfoldable pub handle_urc : M Network NetworkError (Unit {0})
  unfolding apply_urc
  handle_urc n l = elim (env.network_urc l) [
    | none ↦ (ok tt, n, Event.network_urc_polled ∷ l)
    | some urc ↦ (
      ok tt,
      record n { context_state = apply_urc urc n.context_state },
      Event.network_urc_polled ∷ l,
    )
  ]

  unfoldable pub send_internal : (c : Command) → Bool → M Network NetworkError (Response c)
  send_internal c check_urc = do when check_urc (ignore handle_urc); on_at_tx (send env c)
