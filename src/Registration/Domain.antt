-- ===== src/Registration/Domain.antt =====
-- registration.rs: `Status` and `CellularRegistrationStatus`. An instant is a number of ticks;
-- where the source reads the clock, the reading `ts` is an argument.
use fibocom_cellular_rs.Prelude.{
  ℕ, ◌-◌, Bool, true, false, not, ◌&&◌, Option, leb, ◌==◌, if◌then◌else◌,
}

pub data Status : Type 0 where
  none not_registering home searching denied unknown roaming : Status

-- The derived `==`.
unfoldable pub status_eq : Status → Status → Bool
status_eq Status.none Status.none = true
status_eq Status.not_registering Status.not_registering = true
status_eq Status.home Status.home = true
status_eq Status.searching Status.searching = true
status_eq Status.denied Status.denied = true
status_eq Status.unknown Status.unknown = true
status_eq Status.roaming Status.roaming = true
status_eq _ _ = false

-- impl From<u8> for Status
unfoldable pub status_of_code : ℕ → Status
status_of_code v =
    if v == 0
    then Status.not_registering
    else if v == 1
    then Status.home
    else if v == 2
    then Status.searching
    else if v == 3
    then Status.denied
    else if v == 4
    then Status.unknown
    else if v == 5
    then Status.roaming
    else Status.none

pub record CellularRegistrationStatus : Type 0 where
  pub status : Status
  pub updated : Option ℕ
  pub started : Option ℕ

abbrev pub new_status : CellularRegistrationStatus
new_status = record { status = Status.none; updated = Option.none; started = Option.none }

-- `checked_duration_since` fails on an instant that lies ahead.
abbrev pub checked_duration_since : ℕ → ℕ → Option ℕ
checked_duration_since ts earlier =
    if leb earlier ts then Option.some (ts - earlier) else Option.none

unfoldable pub duration : CellularRegistrationStatus → ℕ → ℕ
duration c ts = elim c.started [
  | Option.none ↦ 0
  | Option.some started ↦ elim (checked_duration_since ts started) [
    | Option.none ↦ 0
    | Option.some d ↦ d
  ]
]

unfoldable pub reset_status : CellularRegistrationStatus → CellularRegistrationStatus
reset_status c = record c { status = Status.none; updated = Option.none; started = Option.none }

-- `started` moves only if the status changes.
unfoldable pub set_status : ℕ → Status → CellularRegistrationStatus → CellularRegistrationStatus
unfolding status_eq
set_status ts stat c =
    let changed =
      if status_eq c.status stat then c else record c { status = stat; started = Option.some ts } in
    record changed { updated = Option.some ts }

-- matches!(self.status, Status::Home | Status::Roaming)
unfoldable pub is_registered : Status → Bool
is_registered Status.home = true
is_registered Status.roaming = true
is_registered _ = false

unfoldable pub registered : CellularRegistrationStatus → Bool
unfolding is_registered
registered c = is_registered c.status

abbrev instant_eq : Option ℕ → Option ℕ → Bool
instant_eq Option.none Option.none = true
instant_eq (Option.some a) (Option.some b) = a == b
instant_eq _ _ = false

abbrev is_some : Option ℕ → Bool
is_some Option.none = false
is_some (Option.some _) = true

unfoldable pub sticky : CellularRegistrationStatus → Bool
sticky c = is_some c.updated && not (instant_eq c.updated c.started)
