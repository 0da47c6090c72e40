-- ===== src/Registration/Timing.antt =====
-- registration.rs: the times of a status over a history of reports.
use fibocom_cellular_rs.Prelude.{
  ℕ, ◌<◌, ◌-◌, Bool, true, ◌&&◌, Option, List, [], ◌∷◌, ◌≡◌, refl, arith, if◌then◌else◌, ltb,
}
use fibocom_cellular_rs.Registration.Domain.{
  Status, status_eq, CellularRegistrationStatus, new_status, set_status, sticky, duration,
}

-- The reports of one domain with their times, newest first.
abbrev pub Reports : Type 0
Reports = List (ℕ × Status)

-- What the driver makes of them.
unfoldable pub replay : Reports → CellularRegistrationStatus
replay [] = new_status
replay ((ts, stat) ∷ older) = set_status ts stat (replay older)

-- The newest status, and the time at which its unbroken run began.
unfoldable pub newest : Reports → Status
newest [] = Status.none
newest ((ts, stat) ∷ older) = stat

unfoldable pub run_start : Reports → Option ℕ
run_start [] = Option.none
run_start ((ts, stat) ∷ older) =
    let before = run_start older in if status_eq (newest older) stat then before else Option.some ts

-- Every report is later than the one before it.
unfoldable pub is_rising : Reports → Bool
is_rising [] = true
is_rising ((ts, stat) ∷ []) = true
is_rising ((ts, stat) ∷ (ts', stat') ∷ older) = ltb ts' ts && is_rising ((ts', stat') ∷ older)

pub replay-run_start :
    (rs : Reports) → ((replay rs).started ≡ run_start rs) × ((replay rs).status ≡ newest rs)
unfolding replay run_start newest set_status
replay-run_start [] = (refl, refl)
replay-run_start ((ts, stat) ∷ older) = let ih = replay-run_start older in grind arith

is_rising-run_start :
    (ts : ℕ) (stat : Status) (older : Reports) (t : ℕ)
    → is_rising ((ts, stat) ∷ older) ≡ true
    → run_start older ≡ Option.some t
    → t < ts
unfolding is_rising run_start
is_rising-run_start ts stat [] t h e = ground arith
is_rising-run_start ts stat ((ts', stat') ∷ []) t h e = ground arith
is_rising-run_start ts stat ((ts', stat') ∷ (ts'', stat'') ∷ older) t h e =
    let ih = is_rising-run_start ts' stat' ((ts'', stat'') ∷ older) t in grind arith

-- On reports at rising times a domain is sticky exactly if the newest report repeats the status
-- before it (which is `none` ahead of the first report).
pub sticky-replay :
    (ts : ℕ) (stat : Status) (older : Reports)
    → is_rising ((ts, stat) ∷ older) ≡ true
    → sticky (replay ((ts, stat) ∷ older)) ≡ status_eq (newest older) stat
unfolding replay sticky set_status
sticky-replay ts stat older h =
    let eq = replay-run_start older in
    let lt = (λ (t : ℕ). is_rising-run_start ts stat older t h) in grind arith

-- The duration of a domain at any time is what has passed since the unbroken run of its status
-- began, and 0 if no run has begun or the clock reads less than its start.
pub duration-replay :
    (rs : Reports) (at_ts : ℕ)
    → duration (replay rs) at_ts
      ≡ elim (run_start rs) [ Option.none ↦ 0 | Option.some t ↦ at_ts - t ]
unfolding duration
duration-replay rs at_ts = let eq = replay-run_start rs in grind arith
