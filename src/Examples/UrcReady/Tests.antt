-- ===== src/Examples/UrcReady/Tests.antt =====
-- The theorems on the flag of the MQTT examples in concrete runs.
use fibocom_cellular_rs.Prelude.{◌≡◌, ◌≢◌, refl, Bool, true, false, Option, some, [], inl, arith}
use fibocom_cellular_rs.Command.{Bytes}
use fibocom_cellular_rs.Examples.UrcReady.{
  process, Program, Pc, behind_spin, Threads, init, Step, Run, here, next,
}
use fibocom_cellular_rs.Examples.UrcReady.Noticing.{no_line, Run-noticed, Run-unnoticed}

-- A line comes in, is seen, and another one comes in before the flag is cleared.
abbrev everywhere : Pc → Bool
everywhere pc = true

abbrev first_line : Bytes → Option Bytes
first_line buf = some buf

first_run : Run Program.linux_mqtt everywhere init (record init { urc_ready = true; unseen = 1 })
unfolding process
first_run = next here (Step.line first_line [] [] refl refl)

Run-noticed_example :
    (true ≡ true)
    × (Pc.checking ≡ Pc.checking
        → Step Program.linux_mqtt everywhere
            (record init { urc_ready = true; unseen = 1 })
            (record init { pc = Pc.spinning; urc_ready = true; unseen = 1 })
        → Pc.spinning ≢ Pc.resting)
Run-noticed_example = Run-noticed Program.linux_mqtt everywhere (inl refl) first_run (omega arith)

-- The line that comes in while linux_jobs is about to clear the flag is lost.
abbrev missed : Threads
missed = record { pc = Pc.resting; urc_ready = false; unseen = 1 }

missed-Run : Run Program.linux_jobs everywhere init missed
unfolding process behind_spin
missed-Run =
    next
      (next
        (next (next (next here (Step.line first_line [] [] refl refl)) (Step.spin refl refl))
          (Step.spun refl))
        (Step.line first_line [] [] refl refl))
      (Step.clear refl)

-- The next round.
later : Run Program.linux_jobs no_line missed missed
later = next (next here (Step.again refl)) (Step.pass refl refl)

Run-unnoticed_example :
    (false ≡ false) × (Pc.resting ≢ Pc.spinning) × (missed.unseen ≡ missed.unseen)
Run-unnoticed_example =
    Run-unnoticed Program.linux_jobs {s = missed} {t = missed} refl (λ e. ground arith) later
