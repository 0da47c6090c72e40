-- ===== src/Network/Timeouts.antt =====
-- network.rs: the count of consecutive timeouts.
use fibocom_cellular_rs.Prelude.{◌+◌, min, ◌≡◌, ◌≢◌, arith, inl, inr}
use fibocom_cellular_rs.Command.{Command, Response}
use fibocom_cellular_rs.Env.{Env, Log}
use fibocom_cellular_rs.Error.{AtError}
use fibocom_cellular_rs.Effect.{combinators}
use fibocom_cellular_rs.Network.State.{AtTx, send, send_ignore_timeout, attempts, count_timeout}

-- `send_ignore_timeout` is `send`.
pub send_ignore_timeout-send :
    (env : Env) (c : Command) (tx : AtTx) (l : Log)
    → send_ignore_timeout env c tx l ≡ send env c tx l
unfolding combinators send send_ignore_timeout
send_ignore_timeout-send env c tx l = ground arith

-- The counter is 0 after an answer, grows by the attempts of the command up to 255 after a
-- timeout, and is unchanged by any other error.
pub send-timeouts :
    (env : Env) (c : Command) (tx : AtTx) (l : Log)
    → ((r : Response c) → env.send_retry l c ≡ inr r → (send env c tx l).1.consecutive_timeouts ≡ 0)
      × (env.send_retry l c ≡ inl AtError.timeout
          → (send env c tx l).1.consecutive_timeouts
            ≡ min (tx.consecutive_timeouts + attempts env c) 255)
      × ((e : AtError)
          → env.send_retry l c ≡ inl e
          → e ≢ AtError.timeout
          → (send env c tx l).1 ≡ tx)
unfolding combinators send count_timeout
send-timeouts env c tx l = (λ r h. ground arith, λ h. ground arith, λ e h g. ground arith)
