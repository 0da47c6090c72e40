-- ===== src/Examples/Jobs/Tests.antt =====
-- The theorems on the MQTT examples with simple clients.
use fibocom_cellular_rs.Prelude.{ℕ, ◌+◌, ◌≡◌, refl, Bool, true, false, none, [], ◌∷◌, arith}
use fibocom_cellular_rs.Error.{NbError, DeviceError}
use fibocom_cellular_rs.Env.{Log}
use fibocom_cellular_rs.Effect.{Fault, halt, pure, modify}
use fibocom_cellular_rs.Effect.Ends.{ending}
use fibocom_cellular_rs.Effect.Laws.{keeping}
use fibocom_cellular_rs.Device.State.{Device, on_network}
use fibocom_cellular_rs.Data.Service.{on_service}
use fibocom_cellular_rs.Data.Ingress.{on_service_network}
use fibocom_cellular_rs.Device.Spin.{spin}
use fibocom_cellular_rs.Examples.Jobs.{
  GsmClient, Publish, Notification, MqttEvent, Agents, Main, turn, turns,
}
use fibocom_cellular_rs.Examples.Jobs.Surviving.{Succeeds, IsReliable, turn-connected}
use fibocom_cellular_rs.Examples.Jobs.Reporting.{IsUnreported, turns-unreported}
use fibocom_cellular_rs.Tests.{runs_spin}
use fibocom_cellular_rs.Samples.{Sockets, board_env, board_env-IsTimely, set_ops, connecting_device}

-- The world is the number of jobs that have been reported. Every message is one for the agent of
-- updates, which answers that half of the update is there.
abbrev gsm : GsmClient ℕ Bool
gsm = record {
  init = λ b. pure tt;
  import_root_ca = λ id name content. pure tt;
  import_certificate = λ id name content. pure tt;
  import_private_key = λ id name content password. pure tt;
  begin = λ pin. pure tt;
  attach_gprs = λ apn. pure tt;
  spin = pure tt;
}

abbrev message : Publish
message = record { topic_name = 1 ∷ []; payload = 2 ∷ [] }

abbrev mqtt : {W : Type 0} → MqttEvent W Bool
mqtt = record { connect = pure tt; yield_event = pure (Notification.publish message) }

abbrev agents : {W : Type 0} → Agents W Bool Bool
agents = record {
  is_job_message = λ topic. false;
  is_ota_message = λ topic. true;
  subscribe_to_jobs = pure tt;
  describe_job_execution = λ job. pure tt;
  handle_job_message = λ p. pure none;
  update_job_execution = λ status. pure tt;
  request_timer_irq = pure tt;
  process_ota_job = λ job. pure tt;
  handle_ota_message = λ p. pure 50;
}

-- The same, with the reports counted.
abbrev counting : Agents ℕ Bool Bool
counting = record agents { update_job_execution = λ status. modify (λ n. n + 1) }

Succeeds-pure : {S E A : Type 0} (a : A) → Succeeds {S = S} {E = E} (pure a)
Succeeds-pure a = record { fails = λ s l e h. ground arith; ends = search ending }

-- What linux_jobs takes for granted can hold.
agents-IsReliable : IsReliable gsm mqtt agents
agents-IsReliable = record {
  spin = Succeeds-pure tt;
  process_ota_job = λ job. Succeeds-pure tt;
  update_job_execution = Succeeds-pure tt;
  yield_event = search ending;
  request_timer_irq = search ending;
  handle_job_message = λ p. search ending;
  handle_ota_message = λ p. search ending;
}

abbrev start : Main ℕ
start = record { urc_ready = true; world = 0 }

-- No job is reported.
abbrev NoneReported : ℕ → Log → Type 0
NoneReported n l = n ≡ 0

counting-IsUnreported : IsUnreported NoneReported gsm mqtt counting
counting-IsUnreported = record {
  spin = search keeping;
  process_ota_job = λ job. search keeping;
  yield_event = search keeping;
  request_timer_irq = search keeping;
  handle_job_message = λ p. search keeping;
  handle_ota_message = λ p. search keeping;
  incomplete = λ p w l h. ground arith;
}

turns-unreported_example : (turns gsm mqtt counting {F = Bool} 3 start []).1.world ≡ 0
turns-unreported_example =
    turns-unreported NoneReported gsm mqtt counting counting-IsUnreported Bool 3 start [] refl

-- The driver's own spin, for a device that is still connecting.
abbrev driver : GsmClient (Device Sockets) (NbError DeviceError)
driver = record {
  init = λ b. pure tt;
  import_root_ca = λ id name content. pure tt;
  import_certificate = λ id name content. pure tt;
  import_private_key = λ id name content password. pure tt;
  begin = λ pin. pure tt;
  attach_gprs = λ apn. pure tt;
  spin = spin board_env set_ops;
}

abbrev connecting : Main (Device Sockets)
connecting = record { urc_ready = true; world = connecting_device }

turn-connected_example : (turn driver mqtt agents {F = Bool} connecting []).0 ≡ halt Fault.panicked
unfolding runs_spin on_service_network on_network on_service
turn-connected_example =
    turn-connected board_env {E = Bool} set_ops driver mqtt agents connecting [] board_env-IsTimely
      refl refl refl (λ h. ground arith)
