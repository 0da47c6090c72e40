-- ===== src/Pin/RoundTrip.antt =====
-- command/device_lock/impl_.rs: reading a PIN state inverts writing it.
use fibocom_cellular_rs.Prelude.{◌≡◌, ◌↔◌, refl, arith, some, bytes_eq, eq_of_bytes_eq}
use fibocom_cellular_rs.Command.{Bytes, PinStatusCode}
use fibocom_cellular_rs.Pin.{bytes, serialize, visit_bytes}

visit_bytes-serialize : (pin : PinStatusCode) → visit_bytes (serialize pin) ≡ some pin
unfolding serialize visit_bytes bytes_eq
visit_bytes-serialize PinStatusCode.ready = refl
visit_bytes-serialize PinStatusCode.sim_pin = refl
visit_bytes-serialize PinStatusCode.sim_puk = refl
visit_bytes-serialize PinStatusCode.sim_pin2 = refl
visit_bytes-serialize PinStatusCode.sim_puk2 = refl
visit_bytes-serialize PinStatusCode.ph_net_pin = refl
visit_bytes-serialize PinStatusCode.ph_net_sub_pin = refl
visit_bytes-serialize PinStatusCode.ph_sp_pin = refl
visit_bytes-serialize PinStatusCode.ph_corp_pin = refl
visit_bytes-serialize PinStatusCode.ph_sim_pin = refl

serialize-visit_bytes :
    (value : Bytes) (pin : PinStatusCode) → visit_bytes value ≡ some pin → value ≡ serialize pin
unfolding serialize visit_bytes
serialize-visit_bytes value pin h =
    let read = eq_of_bytes_eq value in
    ground (
      arith,
      read (bytes "READY"),
      read (bytes "SIM PIN"),
      read (bytes "SIM PUK"),
      read (bytes "SIM PIN2"),
      read (bytes "SIM PUK2"),
      read (bytes "PH-NET PIN"),
      read (bytes "PH-NETSUB PIN"),
      read (bytes "PH-SP PIN"),
      read (bytes "PH-CORP PIN"),
      read (bytes "PH-SIM PIN"),
    )

-- A text is read as a PIN state exactly if it is the text that the state is written as.
pub visit_bytes_iff :
    (value : Bytes) (pin : PinStatusCode) → (visit_bytes value ≡ some pin) ↔ (value ≡ serialize pin)
visit_bytes_iff value pin = (serialize-visit_bytes value pin, λ h. rw h (visit_bytes-serialize pin))
