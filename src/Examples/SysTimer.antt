-- ===== src/Examples/SysTimer.antt =====
-- examples/common_lib/src/timer.rs: a timer on the system's clock. An instant of the system is its
-- nanoseconds; a duration is its ticks, which the timer takes for milliseconds.
pub mod Waiting
use fibocom_cellular_rs.Prelude.{ℕ, ◌-◌, ◌*◌, ◌/◌, ◌%◌, ◌^◌, Bool, true, Option, none, some, ltb}

pub record SysTimer : Type 0 where
  pub monotonic : ℕ
  pub start : Option ℕ
  pub duration : ℕ

-- One millisecond.
abbrev pub milli : ℕ
milli = 1000000

unfoldable pub new : (instant : ℕ) → SysTimer
new instant = record { monotonic = instant; start = none; duration = 0 }

-- `as_millis() as u32`
unfoldable pub now : (instant : ℕ) → SysTimer → ℕ
now instant t = (instant - t.monotonic) / milli % 2 ^ 32

unfoldable pub start : (instant duration : ℕ) → SysTimer → SysTimer
start instant duration t = record t { start = some instant; duration = duration }

unfoldable pub cancel : SysTimer → SysTimer
cancel t = record t { start = none }

-- `Ok(())`, or `WouldBlock` as false.
unfoldable pub wait : (instant : ℕ) → SysTimer → Bool
wait instant t = elim t.start [
  | none ↦ true
  | some started ↦ ltb (t.duration * milli) (instant - started)
]
