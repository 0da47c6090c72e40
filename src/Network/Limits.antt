-- ===== src/Network/Limits.antt =====
-- network.rs and command: how long a command may keep the driver waiting.
use fibocom_cellular_rs.Prelude.{ℕ, ◌*◌, ◌≤◌, ◌≡◌, true, arith}
use fibocom_cellular_rs.Command.{Command}
use fibocom_cellular_rs.Command.Limits.{timeout_ms, abortable}
use fibocom_cellular_rs.Env.{Env}
use fibocom_cellular_rs.Network.{attempts}

-- A command is tried as often as it says, and each time for as long as it says: where the default
-- number of attempts is 60 at most, and with the default time stays within three minutes, every
-- command is given up after three minutes. One that can be aborted is tried only once.
pub attempts-timeout_ms :
    (env : Env) (default_ms : ℕ) (c : Command)
    → env.default_attempts ≤ 60
    → env.default_attempts * default_ms ≤ 180000
    → (attempts env c * timeout_ms default_ms c ≤ 180000)
      × (abortable c ≡ true → attempts env c ≡ 1)
unfolding attempts timeout_ms abortable
attempts-timeout_ms env d c many long = (ground arith, λ h. ground arith)
