-- ===== src/Data/Promise.antt =====
-- services/data/mod.rs: what `connect` and `data_service` promise their caller.
use fibocom_cellular_rs.Prelude.{ℕ, ◌≡◌, refl, Bool, true, arith}
use fibocom_cellular_rs.Env.{Env, Log}
use fibocom_cellular_rs.Effect.{ok, combinators}
use fibocom_cellular_rs.Effect.Yields.{Yields, yielding, Yields-unless}
use fibocom_cellular_rs.Network.{Network, ContextState, context_state_eq}
use fibocom_cellular_rs.Data.Context.{
  ApnInfo, set_context, activate_context, activate_context_upsd, connect,
}
use fibocom_cellular_rs.Data.Keeping.{connect-HasStatus}

abbrev is_active : Network → Bool
is_active n = context_state_eq n.context_state ContextState.active

abbrev IsActive : Network → Type 0
IsActive n = n.context_state ≡ ContextState.active

is_active-IsActive : (n : Network) → is_active n ≡ true → IsActive n
unfolding context_state_eq
is_active-IsActive n h = ground arith

set_context-IsActive : {E : Type 0} → Yields {E = E} IsActive (set_context ContextState.active)
unfolding combinators
set_context-IsActive = record { yields = λ s l a h. refl }

module _ (env : Env) (apn_info : ApnInfo) where
  activate_context-IsActive : (cid profile : ℕ) → Yields IsActive (activate_context env cid profile)
  unfolding activate_context
  activate_context-IsActive cid profile =
      Yields-unless is_active is_active-IsActive (search (yielding, set_context-IsActive) depth 40)

  activate_context_upsd-IsActive :
      (profile : ℕ) → Yields IsActive (activate_context_upsd env profile apn_info)
  unfolding activate_context_upsd
  activate_context_upsd-IsActive profile =
      Yields-unless is_active is_active-IsActive (search (yielding, set_context-IsActive) depth 40)

  connect-IsActive : Yields IsActive (connect env apn_info)
  unfolding connect
  connect-IsActive =
      Yields-unless is_active is_active-IsActive
        (search (yielding, activate_context-IsActive, activate_context_upsd-IsActive) depth 40)

-- A connection that succeeds leaves an active context, on either way of activating it, and the
-- registration as it was.
pub connect-active :
    (env : Env) (apn_info : ApnInfo) (n : Network) (l : Log)
    → (connect env apn_info n l).0 ≡ ok tt
    → ((connect env apn_info n l).1.context_state ≡ ContextState.active)
      × ((connect env apn_info n l).1.status ≡ n.status)
connect-active env apn_info n l h = (
  (connect-IsActive env apn_info).yields n l tt h,
  (connect-HasStatus env n.status apn_info).keeps n l refl,
)
