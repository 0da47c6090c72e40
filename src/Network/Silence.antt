-- ===== src/Network/Silence.antt =====
-- network.rs: a module that has stopped answering is noticed.
use fibocom_cellular_rs.Prelude.{false, ◌+◌, ◌≤◌, ◌≡◌, List, [], ◌∷◌, inl, length, min, arith}
use fibocom_cellular_rs.Command.{Command}
use fibocom_cellular_rs.Error.{AtError, NetworkError, GenericError}
use fibocom_cellular_rs.Env.{Env, Log}
use fibocom_cellular_rs.Effect.{err, combinators}
use fibocom_cellular_rs.Network.State.{Network, attempts, send, count_timeout}
use fibocom_cellular_rs.Network.Urcs.{send_internal}
use fibocom_cellular_rs.Network.Events.{process_events}
use fibocom_cellular_rs.Network.Reachable.{World, after}

-- The commands one after the other, whatever becomes of each.
abbrev pub after_all : Env → List Command → World → World
after_all env [] w = w
after_all env (c ∷ rest) w = after_all env rest (after (send_internal env c false) w)

module _ (env : Env) (silent : (l : Log) (c : Command) → env.send_retry l c ≡ inl AtError.timeout)
    (tries : 1 ≤ env.default_attempts) where
  attempts-positive : (c : Command) → 1 ≤ attempts env c
  unfolding attempts
  attempts-positive c = ground arith

  one_more :
      (c : Command) (w : World)
      → min (w.0.at_tx.consecutive_timeouts + 1) 255
        ≤ (after (send_internal env c false) w).0.at_tx.consecutive_timeouts
  unfolding send_internal send count_timeout combinators
  one_more c w = let a = attempts-positive c in let s = silent w.1 c in grind arith

  all_counted :
      (cs : List Command) (w : World)
      → min (w.0.at_tx.consecutive_timeouts + length cs) 255
        ≤ (after_all env cs w).0.at_tx.consecutive_timeouts
  all_counted [] w = ground arith
  all_counted (c ∷ rest) w =
      let one = one_more c w in
      let ih = all_counted rest (after (send_internal env c false) w) in grind arith

-- After eleven or more commands in a row that were sent to a module which never answers, whatever
-- they are, the next round of events fails with a timeout and counts from zero again, if a command
-- that does not say how often it is tried is tried at least once.
pub silence-noticed :
    (env : Env)
    → ((l : Log) (c : Command) → env.send_retry l c ≡ inl AtError.timeout)
    → 1 ≤ env.default_attempts
    → (cs : List Command) (n : Network) (l : Log) → 11 ≤ length cs
    → let w = after_all env cs (n, l) in
      let r = process_events env w.0 w.1 in
      (r.0 ≡ err (NetworkError.generic GenericError.timeout)) × (r.1.at_tx.consecutive_timeouts ≡ 0)
unfolding process_events combinators
silence-noticed env silent tries cs n l h =
    let c = all_counted env silent tries cs (n, l) in grind arith
