-- ===== src/Device/Timing.antt =====
-- ublox-cellular/src/module_timing.rs
use fibocom_cellular_rs.Prelude.{Option, none, some, if◌then◌else◌}
use fibocom_cellular_rs.Env.{Env, Duration}

unfoldable pub pwr_on_time : Env → Duration
pwr_on_time env =
    if env.lara_r6
    then Duration.millis 150
    else if env.toby_r2
    then Duration.micros 50
    else Duration.micros 50

unfoldable pub pwr_off_time : Env → Duration
pwr_off_time env =
    if env.lara_r6
    then Duration.millis 1500
    else if env.toby_r2
    then Duration.secs 1
    else Duration.secs 1

unfoldable pub reset_time : Env → Duration
reset_time env =
    if env.lara_r6
    then Duration.millis 10
    else if env.toby_r2
    then Duration.millis 50
    else Duration.millis 50

unfoldable pub kill_time : Env → Option Duration
kill_time env = if env.lara_r6 then some (Duration.secs 10) else none
