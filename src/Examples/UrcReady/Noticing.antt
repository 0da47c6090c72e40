-- ===== src/Examples/UrcReady/Noticing.antt =====
-- examples/linux_jobs/src/main.rs and examples/linux_mqtt/src/main.rs: which messages are noticed.
use fibocom_cellular_rs.Prelude.{◌<◌, ◌≡◌, ◌≢◌, refl, Bool, true, false, ◌∙◌, ◌⊎◌, arith}
use fibocom_cellular_rs.Examples.UrcReady.{
  process, Program, Pc, behind_spin, Threads, init, Step, line, spin, pass, spun, clear, again, Run,
  here, next,
}

-- No line comes in while the flag is about to be cleared, or it is never cleared.
abbrev pub IsRaceFree : Program → (Pc → Bool) → Type 0
IsRaceFree program allowed = (program ≡ Program.linux_mqtt) ⊎ (allowed Pc.clearing ≡ false)

-- A line that no spin has seen is announced, and there is none while the flag is being cleared.
record IsAnnounced (program : Program) (s : Threads) : Type 0 where
  announced : 0 < s.unseen → s.urc_ready ≡ true
  quiet : s.pc ≡ Pc.clearing → (s.unseen ≡ 0) × (program ≡ Program.linux_jobs)

Step-IsAnnounced :
    (program : Program) (allowed : Pc → Bool) {s t : Threads}
    → IsRaceFree program allowed
    → Step program allowed s t
    → IsAnnounced program s
    → IsAnnounced program t
unfolding process behind_spin
Step-IsAnnounced program allowed free (line get_line buf found a g) h =
    let n = h.announced in
    let q = h.quiet in
    record { announced = λ u. grind arith; quiet = λ c. let d = q c in absurd (grind arith) }
Step-IsAnnounced program allowed free (spin c f) h = record {
  announced = h.announced;
  quiet = λ c. ground arith;
}
Step-IsAnnounced program allowed free (pass c f) h = record {
  announced = h.announced;
  quiet = λ c. ground arith;
}
Step-IsAnnounced Program.linux_jobs allowed free (spun c) h = record {
  announced = λ u. omega arith;
  quiet = λ c. (refl, refl);
}
Step-IsAnnounced Program.linux_mqtt allowed free (spun c) h = record {
  announced = λ u. omega arith;
  quiet = λ c. ground arith;
}
Step-IsAnnounced program allowed free (clear c) h =
    let q = h.quiet c in record { announced = λ u. absurd (omega arith); quiet = λ c. ground arith }
Step-IsAnnounced program allowed free (again c) h = record {
  announced = h.announced;
  quiet = λ c. ground arith;
}

init-IsAnnounced : (program : Program) → IsAnnounced program init
init-IsAnnounced program = record {
  announced = λ u. absurd (omega arith);
  quiet = λ c. ground arith;
}

Run-IsAnnounced :
    (program : Program) (allowed : Pc → Bool) {t : Threads}
    → IsRaceFree program allowed
    → Run program allowed init t
    → IsAnnounced program t
Run-IsAnnounced program allowed free here = init-IsAnnounced program
Run-IsAnnounced program allowed free (next r st) =
    Step-IsAnnounced program allowed free st (Run-IsAnnounced program allowed free r)

-- With the flag set its test is not passed.
Step-checked :
    (program : Program) (allowed : Pc → Bool) {s t : Threads}
    → s.pc ≡ Pc.checking
    → s.urc_ready ≡ true
    → Step program allowed s t
    → t.pc ≢ Pc.resting
Step-checked program allowed c f (line get_line buf found a g) = λ e. ground arith
Step-checked program allowed c f (spin c' f') = λ e. ground arith
Step-checked program allowed c f (pass c' f') = λ e. ground arith
Step-checked program allowed c f (spun c') = λ e. ground arith
Step-checked program allowed c f (clear c') = λ e. ground arith
Step-checked program allowed c f (again c') = λ e. ground arith

-- In linux_mqtt, and in linux_jobs if no line comes in between the return of a spin and the
-- clearing of the flag: whenever a line has come in since a spin last returned, the flag is set, so
-- that the loop, when it next tests the flag, does not pass the spin by.
pub Run-noticed :
    (program : Program) (allowed : Pc → Bool) {s t : Threads}
    → IsRaceFree program allowed
    → Run program allowed init s
    → 0 < s.unseen
    → (s.urc_ready ≡ true) × (s.pc ≡ Pc.checking → Step program allowed s t → t.pc ≢ Pc.resting)
Run-noticed program allowed {s} {t} free r u =
    let set = (Run-IsAnnounced program allowed free r).announced u in
    (set, λ c st. Step-checked program allowed c set st)

-- The steps of `main` alone.
abbrev pub no_line : Pc → Bool
no_line pc = false

Step-passes :
    (program : Program) {s t : Threads}
    → Step program no_line s t
    → (s.urc_ready ≡ false) × (s.pc ≢ Pc.spinning)
    → (t.urc_ready ≡ false) × (t.pc ≢ Pc.spinning) × (t.unseen ≡ s.unseen)
Step-passes program (line get_line buf found a g) h = ground arith
Step-passes program (spin c f) h = ground arith
Step-passes program (pass c f) h = (h.0, λ e. ground arith, refl)
Step-passes program (spun c) h = absurd (h.1 c)
Step-passes program (clear c) h = (refl, λ e. ground arith, refl)
Step-passes program (again c) h = (h.0, λ e. ground arith, refl)

-- Once the flag is clear outside a spin, the lines that no spin has seen stay unseen, and no spin
-- is begun, for as long as no further line comes in.
pub Run-unnoticed :
    (program : Program) {s t : Threads}
    → s.urc_ready ≡ false
    → s.pc ≢ Pc.spinning
    → Run program no_line s t
    → (t.urc_ready ≡ false) × (t.pc ≢ Pc.spinning) × (t.unseen ≡ s.unseen)
Run-unnoticed program f p here = (f, p, refl)
Run-unnoticed program f p (next r st) =
    let ih = Run-unnoticed program f p r in
    let one = Step-passes program st (ih.0, ih.1) in (one.0, one.1, one.2 ∙ ih.2)
