-- ===== src/Data/Defining.antt =====
-- services/data/mod.rs: when `define_context` acts.
use fibocom_cellular_rs.Prelude.{ℕ, ◌≡◌, ◌≢◌, false, Bool, arith}
use fibocom_cellular_rs.Env.{Env, Log}
use fibocom_cellular_rs.Effect.{ok, combinators}
use fibocom_cellular_rs.Effect.Yields.{Yields, yielding, Yields-only}
use fibocom_cellular_rs.Network.{Network, ContextState, context_state_eq}
use fibocom_cellular_rs.Data.Context.{ApnInfo, define_context, set_context}

abbrev IsDefined : Network → Type 0
IsDefined n = n.context_state ≢ ContextState.setup

set_context-IsDefined :
    {E : Type 0} → Yields {E = E} IsDefined (set_context ContextState.activating)
unfolding combinators
set_context-IsDefined = record { yields = λ n l a h e. ground arith }

abbrev in_setup : Network → Bool
in_setup n = context_state_eq n.context_state ContextState.setup

in_setup-IsDefined : (n : Network) → in_setup n ≡ false → IsDefined n
unfolding context_state_eq
in_setup-IsDefined n h e = ground arith

define_context-IsDefined :
    (env : Env) (cid : ℕ) (apn_info : ApnInfo) → Yields IsDefined (define_context env cid apn_info)
unfolding define_context
define_context-IsDefined env cid apn_info =
    Yields-only in_setup in_setup-IsDefined (search (yielding, set_context-IsDefined) depth 40)

-- A definition of the context that succeeds leaves it out of its setup, and in any other state it
-- does nothing: nothing is sent or changed.
pub define_context-setup :
    (env : Env) (cid : ℕ) (apn_info : ApnInfo) (n : Network) (l : Log)
    → ((define_context env cid apn_info n l).0 ≡ ok tt
        → (define_context env cid apn_info n l).1.context_state ≢ ContextState.setup)
      × (n.context_state ≢ ContextState.setup → define_context env cid apn_info n l ≡ (ok tt, n, l))
unfolding define_context context_state_eq combinators
define_context-setup env cid apn_info n l =
    ((define_context-IsDefined env cid apn_info).yields n l tt, λ h. ground arith)
