-- ===== src/Examples/Jobs.antt =====
-- examples/linux_jobs/src/main.rs: `attach_gprs` and the loops of `main`. The client `gsm` is the
-- `GsmClient` that the example is written for; it, the MQTT client of mqttrust and the agents of
-- rustot are operations on a state `W`, and their errors, which are only logged, are of a type `X`.
-- The pauses between the rounds are left out. What the thread that reads the port does to the flag
-- `URC_READY` is the subject of UrcReady.
mod Tests
pub mod Surviving
pub mod Reporting
use fibocom_cellular_rs.Prelude.{
  ℕ, zero, suc, Bool, true, false, Option, none, some, ◌⊎◌, inl, inr, [], ◌∷◌, ◌==◌, if◌then◌else◌,
}
use fibocom_cellular_rs.Command.{Bytes}
use fibocom_cellular_rs.Error.{NbError}
use fibocom_cellular_rs.Effect.{
  either, M, ◌>>=◌, ◌>>◌, pure, panic, diverge, get, when, attempt, ignore, modify,
}
use fibocom_cellular_rs.Data.Context.{ApnInfo, new_apn_info}

pub record GsmClient (W E : Type 0) : Type 0 where
  pub init : Bool → M W E (Unit {0})
  pub import_root_ca : ℕ → (name content : Bytes) → M W E (Unit {0})
  pub import_certificate : ℕ → (name content : Bytes) → M W E (Unit {0})
  pub import_private_key : ℕ → (name content : Bytes) → (password : Option Bytes) → M W E (Unit {0})
  pub begin : Bytes → M W E (Unit {0})
  pub attach_gprs : ApnInfo → M W E (Unit {0})
  pub spin : M W E (Unit {0})

-- mqttrust: a publication, as far as the example looks at it.
pub record Publish : Type 0 where
  pub topic_name : Bytes
  pub payload : Bytes

pub data Notification : Type 0 where
  publish : Publish → Notification
  other : Notification

pub record MqttEvent (W X : Type 0) : Type 0 where
  pub connect : M W (NbError X) (Unit {0})
  pub yield_event : M W (NbError X) Notification

-- rustot
pub data JobDetails (OtaJob : Type 0) : Type 0 where
  ota_job : OtaJob → JobDetails OtaJob
  other : JobDetails OtaJob

pub data JobStatus : Type 0 where
  succeeded other : JobStatus

pub record Agents (W X OtaJob : Type 0) : Type 0 where
  pub is_job_message : Bytes → Bool
  pub is_ota_message : Bytes → Bool
  pub subscribe_to_jobs : M W X (Unit {0})
  pub describe_job_execution : Bytes → M W X (Unit {0})
  pub handle_job_message : Publish → M W X (Option (JobDetails OtaJob))
  pub update_job_execution : JobStatus → M W X (Unit {0})
  pub request_timer_irq : M W X (Unit {0})
  pub process_ota_job : OtaJob → M W X (Unit {0})
  pub handle_ota_message : Publish → M W X ℕ

-- `.unwrap()`
unfoldable pub unwrap : {S E F A : Type 0} → M S E A → M S F A
unwrap m = do result ← attempt m; either (λ _. panic) pure result

pub record Main (W : Type 0) : Type 0 where
  pub urc_ready : Bool
  pub world : W

unfoldable pub on_world : {W E A : Type 0} → M W E A → M (Main W) E A
on_world m s l = let r = m s.world l in (r.0, record s { world = r.1 }, r.2)

module _ {W E : Type 0} (gsm : GsmClient W E) where
  -- The three contents are the files of the folder secrets_mini_2.
  unfoldable pub attach_gprs : (root_ca certificate private_key : Bytes) → M W E (Unit {0})
  attach_gprs root_ca certificate private_key = do
    gsm.init true
    gsm.import_root_ca 0 (b'V' ∷ b'e' ∷ b'r' ∷ b'i' ∷ b's' ∷ b'i' ∷ b'g' ∷ b'n' ∷ []) root_ca
    gsm.import_certificate 0 (b'c' ∷ b'e' ∷ b'r' ∷ b't' ∷ []) certificate
    gsm.import_private_key 0 (b'k' ∷ b'e' ∷ b'y' ∷ []) private_key none
    unwrap (gsm.begin [])
    unwrap (gsm.attach_gprs (new_apn_info (b'e' ∷ b'm' ∷ [])))

  -- The test of the flag in both loops.
  unfoldable pub spin_if_ready : {F : Type 0} → M (Main W) F (Unit {0})
  spin_if_ready = do
    s ← get
    when s.urc_ready (do unwrap (on_world gsm.spin); modify λ s. record s { urc_ready = false })

  module _ {X : Type 0} (mqtt : MqttEvent W X) where
    -- The loop that connects to the broker, so many rounds at most.
    unfoldable pub connect_to_broker : {F : Type 0} → ℕ → M (Main W) F (Unit {0})
    connect_to_broker zero = diverge
    connect_to_broker (suc n) = do
      result ← attempt (on_world mqtt.connect)
      let again = connect_to_broker n
      either
          (λ e. elim e [
            | NbError.other x ↦ panic
            | NbError.would_block ↦ (do spin_if_ready; again)
          ])
          pure result

    module _ {OtaJob : Type 0} (agents : Agents W X OtaJob) where
      unfoldable pub start_job : {F : Type 0} → Option (JobDetails OtaJob) → M (Main W) F (Unit {0})
      start_job none = pure tt
      start_job (some (JobDetails.ota_job job)) = unwrap (on_world (agents.process_ota_job job))
      start_job (some JobDetails.other) = pure tt

      unfoldable pub report_progress : {F : Type 0} → ℕ → M (Main W) F (Unit {0})
      report_progress progress =
          when (progress == 100)
            (unwrap (on_world (agents.update_job_execution JobStatus.succeeded)))

      unfoldable pub take_publish : {F : Type 0} → Publish → M (Main W) F (Unit {0})
      take_publish message =
          if agents.is_job_message message.topic_name
          then (do
            job ← attempt (on_world (agents.handle_job_message message))
            either (λ _. pure tt) start_job job)
          else if agents.is_ota_message message.topic_name
          then (do
            progress ← attempt (on_world (agents.handle_ota_message message))
            either (λ _. pure tt) report_progress progress)
          else pure tt

      unfoldable pub take_event : {F : Type 0} → NbError X ⊎ Notification → M (Main W) F (Unit {0})
      take_event (inr (Notification.publish message)) = take_publish message
      take_event _ = pure tt

      -- One round of the loop behind the connection.
      unfoldable pub turn : {F : Type 0} → M (Main W) F (Unit {0})
      turn = do
        spin_if_ready
        ignore (on_world agents.request_timer_irq)
        event ← attempt (on_world mqtt.yield_event)
        take_event event

      unfoldable pub turns : {F : Type 0} → ℕ → M (Main W) F (Unit {0})
      turns zero = pure tt
      turns (suc n) = do turn; turns n

      -- `main` from `attach_gprs` on, with so many rounds of its two loops.
      unfoldable pub main :
          {F : Type 0}
          → (root_ca certificate private_key : Bytes) → (connecting running : ℕ)
          → M (Main W) F (Unit {0})
      main root_ca certificate private_key connecting running = do
        attached ← attempt (on_world (attach_gprs root_ca certificate private_key))
        either (λ _. pure tt)
            (λ _. do
              connect_to_broker connecting
              unwrap (on_world agents.subscribe_to_jobs)
              unwrap
                  (on_world (agents.describe_job_execution (b'$' ∷ b'n' ∷ b'e' ∷ b'x' ∷ b't' ∷ [])))
              turns running)
            attached
