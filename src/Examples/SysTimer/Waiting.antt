-- ===== src/Examples/SysTimer/Waiting.antt =====
-- examples/common_lib/src/timer.rs: what a wait goes by, and what the clock tells.
use fibocom_cellular_rs.Prelude.{
  ℕ, ◌+◌, ◌-◌, ◌*◌, ◌/◌, ◌%◌, ◌^◌, ◌≤◌, ◌<◌, ◌≡◌, ◌↔◌, refl, true, Option, none, some, List, [],
  ◌∷◌, arith,
}
use fibocom_cellular_rs.Examples.SysTimer.{SysTimer, milli, new, now, start, cancel, wait}

-- What is done to a timer, newest first.
pub data Setting : Type 0 where
  started : (instant duration : ℕ) → Setting
  cancelled : Setting

unfoldable pub set_to : Setting → SysTimer → SysTimer
set_to (Setting.started instant duration) t = start instant duration t
set_to Setting.cancelled t = cancel t

unfoldable pub set_all : List Setting → SysTimer → SysTimer
set_all [] t = t
set_all (s ∷ before) t = set_to s (set_all before t)

-- The start that counts: the last one, unless it was cancelled.
unfoldable pub running : List Setting → Option (ℕ × ℕ)
running (Setting.started instant duration ∷ before) = some (instant, duration)
running _ = none

-- A wait goes by the last setting alone. On a timer that was never started, or was cancelled
-- since, it is over at once; on a timer that was started last for some ticks, it is over as soon
-- as more than as many milliseconds have passed, whatever the frequency is.
pub wait-set_all :
    (instant : ℕ) (settings : List Setting) (created : ℕ)
    → (running settings ≡ none → wait instant (set_all settings (new created)) ≡ true)
      × ((started duration : ℕ)
          → running settings ≡ some (started, duration)
          → (wait instant (set_all settings (new created)) ≡ true)
            ↔ (started + duration * milli < instant))
unfolding wait set_all set_to running new start cancel
wait-set_all instant [] created = (λ h. refl, λ s d h. cc)
wait-set_all instant (Setting.started i k ∷ before) created = (λ h. cc, λ s d h. ground arith)
wait-set_all instant (Setting.cancelled ∷ before) created = (λ h. refl, λ s d h. cc)

-- The clock wraps around after 2 ^ 32 milliseconds, but the time between two readings is told by
-- their wrapping difference as long as it is less than that, to the millisecond.
pub now-difference :
    (t : SysTimer) (earlier later : ℕ)
    → t.monotonic ≤ earlier
    → earlier ≤ later
    → let passed = (later - t.monotonic) / milli - (earlier - t.monotonic) / milli in
      ((now later t + 2 ^ 32 - now earlier t) % 2 ^ 32 ≡ passed % 2 ^ 32)
      × (later - earlier < (passed + 1) * milli)
      × (passed * milli < later - earlier + milli)
unfolding now
now-difference t earlier later created order = (omega arith, omega arith, omega arith)
