-- ===== src/Registration/State.antt =====
-- registration.rs: `RegistrationState`.
use fibocom_cellular_rs.Prelude.{
  ℕ, Bool, true, false, not, ◌&&◌, Option, none, some, bytes_eq, if◌then◌else◌,
}
use fibocom_cellular_rs.Command.{Bytes}
use fibocom_cellular_rs.Env.{Env}
use fibocom_cellular_rs.Effect.{M, ◌>>=◌, ◌>>◌, pure, now, modify}
use fibocom_cellular_rs.Registration.Domain.{
  Status, CellularRegistrationStatus, new_status, reset_status, set_status, registered,
}
use fibocom_cellular_rs.Registration.Params.{RegType, RegistrationParams}

pub data ConnectionState : Type 0 where
  disconnected connecting connected : ConnectionState

-- The derived `==`.
unfoldable pub connection_state_eq : ConnectionState → ConnectionState → Bool
connection_state_eq ConnectionState.disconnected ConnectionState.disconnected = true
connection_state_eq ConnectionState.connecting ConnectionState.connecting = true
connection_state_eq ConnectionState.connected ConnectionState.connected = true
connection_state_eq _ _ = false

pub record CellularGlobalIdentity : Type 0 where
  pub cell_id : Option Bytes
  pub lac : Option Bytes

pub record RegistrationState : Type 0 where
  pub reg_check_time : Option ℕ
  pub reg_start_time : Option ℕ
  pub imsi_check_time : Option ℕ
  pub conn_state : ConnectionState
  pub csd : CellularRegistrationStatus
  pub psd : CellularRegistrationStatus
  pub eps : CellularRegistrationStatus
  -- u8
  pub registration_interventions : ℕ
  pub check_imsi : Bool
  pub cgi : CellularGlobalIdentity

unfoldable pub new : RegistrationState
new = record {
  reg_check_time = none;
  reg_start_time = none;
  imsi_check_time = none;
  conn_state = ConnectionState.disconnected;
  csd = new_status;
  psd = new_status;
  eps = new_status;
  registration_interventions = 1;
  check_imsi = false;
  cgi = record { cell_id = none; lac = none };
}

-- `&mut self` of the three statuses in a row.
unfoldable pub reset_statuses : RegistrationState → RegistrationState
unfolding reset_status
reset_statuses s = record s {
  csd = reset_status s.csd;
  psd = reset_status s.psd;
  eps = reset_status s.eps;
}

-- The clock is read twice.
unfoldable pub reset : {E : Type 0} → Env → M RegistrationState E (Unit {0})
unfolding reset_statuses
reset env = do
  modify reset_statuses
  start ← now env
  modify (λ s. record s { reg_start_time = some start })
  check ← now env
  modify λ s. record s {
    reg_check_time = some check;
    imsi_check_time = none;
    registration_interventions = 1;
  }

unfoldable pub set_connection_state : ConnectionState → RegistrationState → RegistrationState
unfolding connection_state_eq
set_connection_state state s =
    if connection_state_eq s.conn_state state then s else record s { conn_state = state }

unfoldable pub id_eq : Option Bytes → Option Bytes → Bool
unfolding bytes_eq
id_eq none none = true
id_eq (some a) (some b) = bytes_eq a b
id_eq _ _ = false

abbrev is_some : Option Bytes → Bool
is_some none = false
is_some (some _) = true

-- Update Cellular Global Identity
unfoldable pub set_cgi : RegistrationParams → RegistrationState → RegistrationState
set_cgi p s =
    if is_some p.cell_id && not (id_eq s.cgi.cell_id p.cell_id)
    then record s { cgi = record { cell_id = p.cell_id; lac = p.lac } }
    else s

-- One domain's status after the report at `ts`, and whether it has become registered by it.
unfoldable pub report : ℕ → Status → CellularRegistrationStatus → CellularRegistrationStatus × Bool
report ts stat c = let c' = set_status ts stat c in (c', not (registered c) && registered c')

-- The `match` on the kind of report, with the time that `set_status` reads.
unfoldable pub compare_and_set_at :
    RegType → ℕ → RegistrationParams → RegistrationState → RegistrationState
unfolding report
compare_and_set_at RegType.creg ts p s =
    let (csd', gained) = report ts p.status s.csd in
    let s' = record s { csd = csd' } in
    set_cgi p (if gained then record s' { check_imsi = true } else s')
compare_and_set_at RegType.cgreg ts p s =
    let (psd', gained) = report ts p.status s.psd in
    let s' = record s { psd = psd' } in
    set_cgi p (if gained then record s' { check_imsi = true } else s')
compare_and_set_at RegType.cereg ts p s =
    let (eps', gained) = report ts p.status s.eps in
    let s' = record s { eps = eps' } in
    set_cgi p (if gained then record s' { check_imsi = true } else s')
compare_and_set_at RegType.unknown ts p s = s

-- A report of an unknown kind returns before the clock is read.
unfoldable pub compare_and_set_kind :
    {E : Type 0} → RegType → Env → RegistrationParams → M RegistrationState E (Unit {0})
unfolding compare_and_set_at
compare_and_set_kind RegType.unknown env p = pure tt
compare_and_set_kind kind env p = do ts ← now env; modify (compare_and_set_at kind ts p)

unfoldable pub compare_and_set :
    {E : Type 0} → Env → RegistrationParams → M RegistrationState E (Unit {0})
unfolding compare_and_set_kind
compare_and_set env p = compare_and_set_kind p.reg_type env p
