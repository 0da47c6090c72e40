-- ===== src/Pin/Tests.antt =====
-- The PIN state at a concrete text.
use fibocom_cellular_rs.Prelude.{◌≡◌, ◌↔◌, some}
use fibocom_cellular_rs.Command.{PinStatusCode}
use fibocom_cellular_rs.Pin.{bytes, serialize, visit_bytes}
use fibocom_cellular_rs.Pin.RoundTrip.{visit_bytes_iff}

visit_bytes_iff_example :
    (visit_bytes (bytes "SIM PIN") ≡ some PinStatusCode.sim_pin)
    ↔ (bytes "SIM PIN" ≡ serialize PinStatusCode.sim_pin)
visit_bytes_iff_example = visit_bytes_iff (bytes "SIM PIN") PinStatusCode.sim_pin
