-- ===== src/BlockingTimer.antt =====
-- ublox-cellular/src/blocking_timer.rs: a busy wait on the clock.
pub mod Waiting
pub mod Clock
use fibocom_cellular_rs.Prelude.{
  ℕ, zero, suc, ◌+◌, ◌≤◌, ◌<◌, ◌≡◌, refl, ◌∷◌, arith, leb, if◌then◌else◌, leb→le, Bool-cases, inl,
  inr,
}
use fibocom_cellular_rs.Env.{Env, Event, Log, Duration, ticks, IsAdvancing, commands}
use fibocom_cellular_rs.Effect.{M, Fault, Outcome, ok, halt, now, ◌>>=◌}

module _ (env : Env) {S E : Type 0} where
  -- `loop { if self.expires_at <= Instant::now() { break; } }`
  unfoldable pub wait_until : ℕ → ℕ → M S E (Unit {0})
  wait_until zero expires_at s l = (halt Fault.out_of_fuel, s, l)
  wait_until (suc fuel) expires_at s l =
      let rest = wait_until fuel expires_at s (Event.clock_read ∷ l) in
      if leb expires_at (env.now l) then (ok tt, s, Event.clock_read ∷ l) else rest

  -- `BlockingTimer::after(duration).wait()`
  unfoldable pub wait : Duration → M S E (Unit {0})
  wait d = do start ← now env; wait_until env.spin_limit (start + ticks env d)
