-- ===== src/Pin.antt =====
-- command/device_lock/impl_.rs: the state of the PIN as the module writes it. The two functions are
-- called, on the bytes between the separators, by the `serde_at` code of the `atat` crate.
pub mod RoundTrip
mod Tests
use Prim.Native.Char.{code}
use Prim.Native.String.{String}
use fibocom_cellular_rs.Prelude.{ℕ, Option, none, some, List, [], ◌∷◌, bytes_eq, if◌then◌else◌}
use fibocom_cellular_rs.Command.{Bytes, PinStatusCode}

-- The bytes of a text in ASCII.
abbrev pub bytes : String → Bytes
bytes String.[] = []
bytes (String.◌∷◌ c s) = code c ∷ bytes s

-- Serialize::serialize
unfoldable pub serialize : PinStatusCode → Bytes
serialize PinStatusCode.ready = bytes "READY"
serialize PinStatusCode.sim_pin = bytes "SIM PIN"
serialize PinStatusCode.sim_puk = bytes "SIM PUK"
serialize PinStatusCode.sim_pin2 = bytes "SIM PIN2"
serialize PinStatusCode.sim_puk2 = bytes "SIM PUK2"
serialize PinStatusCode.ph_net_pin = bytes "PH-NET PIN"
serialize PinStatusCode.ph_net_sub_pin = bytes "PH-NETSUB PIN"
serialize PinStatusCode.ph_sp_pin = bytes "PH-SP PIN"
serialize PinStatusCode.ph_corp_pin = bytes "PH-CORP PIN"
serialize PinStatusCode.ph_sim_pin = bytes "PH-SIM PIN"

-- FieldVisitor::visit_bytes, and the code that Visitor::visit_enum makes of the field; `none` is
-- the error for an unknown variant.
unfoldable pub visit_bytes : Bytes → Option PinStatusCode
visit_bytes value =
    if bytes_eq value (bytes "READY")
    then some PinStatusCode.ready
    else if bytes_eq value (bytes "SIM PIN")
    then some PinStatusCode.sim_pin
    else if bytes_eq value (bytes "SIM PUK")
    then some PinStatusCode.sim_puk
    else if bytes_eq value (bytes "SIM PIN2")
    then some PinStatusCode.sim_pin2
    else if bytes_eq value (bytes "SIM PUK2")
    then some PinStatusCode.sim_puk2
    else if bytes_eq value (bytes "PH-NET PIN")
    then some PinStatusCode.ph_net_pin
    else if bytes_eq value (bytes "PH-NETSUB PIN")
    then some PinStatusCode.ph_net_sub_pin
    else if bytes_eq value (bytes "PH-SP PIN")
    then some PinStatusCode.ph_sp_pin
    else if bytes_eq value (bytes "PH-CORP PIN")
    then some PinStatusCode.ph_corp_pin
    else if bytes_eq value (bytes "PH-SIM PIN")
    then some PinStatusCode.ph_sim_pin
    else none
