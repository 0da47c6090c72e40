-- ===== src/Examples/Mqtt/Receiving.antt =====
-- examples/linux_mqtt/src/main.rs: what a round of the loop of `main` takes in.
use fibocom_cellular_rs.Prelude.{ℕ, ◌≡◌, Bool, true, arith}
use fibocom_cellular_rs.Command.{Bytes}
use fibocom_cellular_rs.Env.{Log}
use fibocom_cellular_rs.Effect.{ok, combinators}
use fibocom_cellular_rs.Examples.Sockets.{block}
use fibocom_cellular_rs.Examples.Jobs.{Publish, Notification, MqttEvent, unwrap, Main, on_world}
use fibocom_cellular_rs.Examples.Mqtt.{GsmClient, spin_if_ready, take_event, turn}

-- A round that succeeds leaves the flag as it was, has spun if the flag was set, and has taken in
-- what the MQTT client delivered: an error, something that is no publication, or a publication
-- whose payload is UTF-8.
pub turn-ok :
    {W E X F : Type 0} (gsm : GsmClient W E) (mqtt : MqttEvent W X) (is_utf8 : Bytes → Bool)
    (rounds : ℕ) (s : Main W) (l : Log)
    → (turn gsm mqtt is_utf8 rounds {F = F} s l).0 ≡ ok tt
    → ((turn gsm mqtt is_utf8 rounds {F = F} s l).1.urc_ready ≡ s.urc_ready)
      × (s.urc_ready ≡ true → (gsm.spin s.world l).0 ≡ ok tt)
      × ((message : Publish)
          → (let r = spin_if_ready gsm {F = F} s l in
              (block rounds mqtt.yield_event r.1.world r.2).0)
            ≡ ok (Notification.publish message)
          → is_utf8 message.payload ≡ true)
unfolding turn take_event spin_if_ready unwrap on_world combinators
turn-ok gsm mqtt is_utf8 rounds s l h = (grind arith, λ r. grind arith, λ message e. grind arith)
