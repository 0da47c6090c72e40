-- ===== src/Config.antt =====
-- ublox-cellular/src/config.rs: the pin that is not there, and the constants of a configuration
-- that does not give its own. Which pins a configuration has is said in `Env`.
use fibocom_cellular_rs.Prelude.{Bool, true, false, Option, some}
use fibocom_cellular_rs.Env.{Log}

-- `NoPin` as an input: it never fails, and reads high.
abbrev pub no_pin_is_high : Log → Option Bool
no_pin_is_high l = some true

abbrev pub no_pin_is_low : Log → Option Bool
no_pin_is_low l = some false

-- `FLOW_CONTROL` and `HEX_MODE`
abbrev pub flow_control : Bool
flow_control = false

abbrev pub hex_mode : Bool
hex_mode = true
