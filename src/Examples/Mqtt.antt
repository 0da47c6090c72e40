-- ===== src/Examples/Mqtt.antt =====
-- examples/linux_mqtt/src/main.rs: `attach_gprs`, the loop of `main` and that of the thread that
-- publishes, without the pauses between their rounds. The clients are operations on a state `W`, as
-- in linux_jobs.
pub mod Receiving
use fibocom_cellular_rs.Prelude.{
  ℕ, zero, suc, ◌+◌, Bool, true, false, ◌⊎◌, inl, inr, [], ◌∷◌, ltb, if◌then◌else◌,
}
use fibocom_cellular_rs.Command.{Bytes}
use fibocom_cellular_rs.Error.{NbError}
use fibocom_cellular_rs.Effect.{
  either, M, ◌>>=◌, ◌>>◌, pure, throw, panic, diverge, get, when, attempt, modify,
}
use fibocom_cellular_rs.Examples.Sockets.{block}
use fibocom_cellular_rs.Examples.Jobs.{Publish, Notification, MqttEvent, unwrap, Main, on_world}

pub record GsmClient (W E : Type 0) : Type 0 where
  pub init : Bool → M W E (Unit {0})
  pub begin : M W E (Unit {0})
  pub attach_gprs : M W E (Unit {0})
  pub spin : M W E (Unit {0})

-- The queue of requests to the MQTT client: a subscription to two topics, or a publication.
pub data Request : Type 0 where
  subscribe : (first second : Bytes) → Request
  publish : (topic_name payload : Bytes) → Request

-- i32::MAX
abbrev max_cnt : ℕ
max_cnt = 2147483647

-- So many rounds of the thread that publishes; `cnt` is an `i32`, here with the overflow checks of
-- a debug build, and `payload` formats it.
unfoldable pub publish_turns :
    {W X F : Type 0}
    → (enqueue : Request → M W X (Unit {0})) → (topic_name : Bytes) → (payload : ℕ → Bytes)
    → (n cnt : ℕ) → M W F (Unit {0})
publish_turns enqueue topic_name payload zero cnt = pure tt
publish_turns enqueue topic_name payload (suc n) cnt =
    let rest = publish_turns enqueue topic_name payload n (cnt + 1) in
    do
      unwrap (enqueue (Request.publish topic_name (payload cnt)))
      if ltb cnt max_cnt then rest else panic

module _ {W E : Type 0} (gsm : GsmClient W E) where
  unfoldable pub attach_gprs : M W E (Unit {0})
  attach_gprs = do gsm.init true; unwrap gsm.begin; unwrap gsm.attach_gprs

  -- The flag is not cleared.
  unfoldable pub spin_if_ready : {F : Type 0} → M (Main W) F (Unit {0})
  spin_if_ready = do s ← get; when s.urc_ready (unwrap (on_world gsm.spin))

  -- `is_utf8` is whether `String::from_utf8` takes the bytes; the message is logged as text.
  module _ {X : Type 0} (mqtt : MqttEvent W X) (is_utf8 : Bytes → Bool) (rounds : ℕ) where
    unfoldable pub take_event : {F : Type 0} → X ⊎ Notification → M (Main W) F (Unit {0})
    take_event (inr (Notification.publish message)) =
        if is_utf8 message.payload then pure tt else panic
    take_event _ = pure tt

    -- One round of the last loop of `main`.
    unfoldable pub turn : {F : Type 0} → M (Main W) F (Unit {0})
    turn = do
      spin_if_ready
      event ← attempt (on_world (block rounds mqtt.yield_event))
      take_event event

    unfoldable pub turns : {F : Type 0} → ℕ → M (Main W) F (Unit {0})
    turns zero = pure tt
    turns (suc n) = do turn; turns n

    -- `main` from `attach_gprs` on, but for the start of the thread that publishes, with so many
    -- rounds of its last loop. The two topics are constants of the source.
    unfoldable pub main :
        {F : Type 0}
        → (enqueue : Request → M W X (Unit {0})) → (first second : Bytes) → (n : ℕ)
        → M (Main W) F (Unit {0})
    main enqueue first second n = do
      attached ← attempt (on_world attach_gprs)
      either (λ _. pure tt)
          (λ _. do
            unwrap (on_world (block rounds mqtt.connect))
            unwrap (on_world (enqueue (Request.subscribe first second)))
            turns n)
          attached
