-- ===== src/Examples/UrcReady.antt =====
-- examples/linux_jobs/src/main.rs and examples/linux_mqtt/src/main.rs: the flag `URC_READY`, which
-- the thread that reads the port sets, and the thread of `main` reads and, in linux_jobs, clears.
pub mod Noticing
mod Tests
use fibocom_cellular_rs.Prelude.{ℕ, zero, suc, ◌+◌, ◌≡◌, Bool, true, false, Option, none, some}
use fibocom_cellular_rs.Command.{Bytes}

-- atat::UrcMatcherResult
pub data UrcMatcherResult : Type 0 where
  complete : Bytes → UrcMatcherResult
  incomplete : UrcMatcherResult

-- `NvicUrcMatcher::process`: what `atat::get_line` finds in the buffer, and the flag.
unfoldable pub process :
    (get_line : Bytes → Option Bytes) (buf : Bytes) → Bool → UrcMatcherResult × Bool
process get_line buf urc_ready = elim (get_line buf) [
  | some line ↦ (UrcMatcherResult.complete line, true)
  | none ↦ (UrcMatcherResult.incomplete, urc_ready)
]

pub data Program : Type 0 where
  linux_jobs linux_mqtt : Program

-- Where the loop of `main` stands: at the test of the flag, in `gsm.spin()`, behind it and before
-- `URC_READY = false`, or in the rest of the round.
pub data Pc : Type 0 where
  checking spinning clearing resting : Pc

-- Only linux_jobs clears the flag.
unfoldable pub behind_spin : Program → Pc
behind_spin Program.linux_jobs = Pc.clearing
behind_spin Program.linux_mqtt = Pc.resting

-- The two threads. `unseen` counts the lines that came in since a spin last returned.
pub record Threads : Type 0 where
  pub pc : Pc
  pub urc_ready : Bool
  pub unseen : ℕ

abbrev pub init : Threads
init = record { pc = Pc.checking; urc_ready = false; unseen = 0 }

-- One step of one of the threads. A line may come in wherever `allowed` says so.
pub data Step (program : Program) (allowed : Pc → Bool) (s : Threads) : Threads → Type 0 where
  line :
      (get_line : Bytes → Option Bytes) (buf found : Bytes)
      → allowed s.pc ≡ true
      → get_line buf ≡ some found
      → Step program allowed s
          (record s { urc_ready = (process get_line buf s.urc_ready).1; unseen = s.unseen + 1 })
  spin :
      s.pc ≡ Pc.checking
      → s.urc_ready ≡ true
      → Step program allowed s (record s { pc = Pc.spinning })
  pass :
      s.pc ≡ Pc.checking
      → s.urc_ready ≡ false
      → Step program allowed s (record s { pc = Pc.resting })
  spun :
      s.pc ≡ Pc.spinning
      → Step program allowed s (record s { pc = behind_spin program; unseen = 0 })
  clear :
      s.pc ≡ Pc.clearing → Step program allowed s (record s { pc = Pc.resting; urc_ready = false })
  again : s.pc ≡ Pc.resting → Step program allowed s (record s { pc = Pc.checking })

-- Any number of steps.
pub data Run (program : Program) (allowed : Pc → Bool) (s : Threads) : Threads → Type 0 where
  here : Run program allowed s s
  next :
      {t u : Threads} → Run program allowed s t → Step program allowed t u → Run program allowed s u
