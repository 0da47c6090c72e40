-- ===== src/Env.antt =====
-- What the driver does not implement: the modem behind the `atat` client, the clock of
-- `embassy-time`, the channel of unsolicited result codes, the three pins, the strings of
-- `heapless` and the build's features.
--
-- The outside world is any function of what the driver has done so far: each action is an event,
-- and the answer to it may depend on all events before it, newest first. Nothing is assumed of
-- the answers here; a theorem that needs a clock that moves on says so.
use fibocom_cellular_rs.Prelude.{ℕ, ◌+◌, ◌*◌, ◌/◌, ◌≤◌, ◌<◌, Bool, Option, List, [], ◌∷◌, ◌⊎◌}
use fibocom_cellular_rs.Command.{Bytes, Command, Response, Urc}
use fibocom_cellular_rs.Error.{AtError}

pub data Event : Type 0 where
  sent : Command → Event
  clock_read : Event
  network_urc_polled device_urc_polled : Event
  reset_low reset_high power_low power_high vint_read : Event

abbrev pub Log : Type 0
Log = List Event

pub record Env : Type 0 where
  -- embassy_time::TICK_HZ, and what Instant::now() answers, in ticks.
  pub tick_hz : ℕ
  pub now : Log → ℕ
  -- AtatClient::send_retry, and ATTEMPTS of a command that names none.
  pub send_retry : Log → (c : Command) → AtError ⊎ Response c
  pub default_attempts : ℕ
  -- try_next_message_pure of the two subscriptions.
  pub network_urc : Log → Option Urc
  pub device_urc : Log → Option Urc
  -- CellularConfig: which pins there are, what the sense pin reads (`none`: its error), and the
  -- two constants.
  pub reset_pin : Bool
  pub power_pin : Bool
  pub vint_pin : Option (Log → Option Bool)
  pub flow_control : Bool
  pub hex_mode : Bool
  -- heapless: `String::<N>::from(&str)`; `none` is its panic.
  pub string_from : ℕ → Bytes → Option Bytes
  -- Cargo features.
  pub lara_r6 : Bool
  pub sara_r4 : Bool
  pub sara_r5 : Bool
  pub toby_r2 : Bool
  pub upsd_context_activation : Bool
  -- How often a busy loop tries before the model gives up; see `Effect.Fault`.
  pub spin_limit : ℕ

-- embassy_time::Duration; the constructors round up to whole ticks.
pub data Duration : Type 0 where
  secs millis micros : ℕ → Duration

abbrev pub ticks : Env → Duration → ℕ
ticks env (Duration.secs n) = n * env.tick_hz
ticks env (Duration.millis n) = (n * env.tick_hz + 999) / 1000
ticks env (Duration.micros n) = (n * env.tick_hz + 999999) / 1000000

-- The commands of a log, newest first.
abbrev pub commands : Log → List Command
commands [] = []
commands (Event.sent c ∷ l) = c ∷ commands l
commands (_ ∷ l) = commands l

-- The clock moves on between two readings.
pub record IsAdvancing (env : Env) : Type 0 where
  pub step : (l : Log) → env.now l < env.now (Event.clock_read ∷ l)

-- The clock never goes back.
pub record IsMonotone (env : Env) : Type 0 where
  pub mono : (e : Event) (l : Log) → env.now l ≤ env.now (e ∷ l)

-- A board on which every busy loop ends: the clock moves on, and the loops may run as many rounds
-- as the longest wait of the driver has ticks.
pub record IsTimely (env : Env) : Type 0 where
  pub advancing : IsAdvancing env
  pub monotone : IsMonotone env
  pub limit : ticks env (Duration.secs 30) < env.spin_limit
