-- ===== src/Examples/Jobs/Surviving.antt =====
-- examples/linux_jobs/src/main.rs: what the loop of `main` survives.
use fibocom_cellular_rs.Prelude.{
  ℕ, zero, suc, ◌≡◌, ◌≢◌, refl, sym, ap, ◌∙◌, true, Option, none, some, ◌⊎◌, inl, inr, arith,
}
use fibocom_cellular_rs.Error.{NbError, DeviceError}
use fibocom_cellular_rs.Env.{Env, Log, IsTimely}
use fibocom_cellular_rs.Effect.{M, ◌>>◌, Fault, Outcome, ok, err, halt, combinators}
use fibocom_cellular_rs.Effect.Ends.{Ends, ending}
use fibocom_cellular_rs.Registration.{ConnectionState}
use fibocom_cellular_rs.Sockets.{SocketSetOps}
use fibocom_cellular_rs.Device.State.{Device}
use fibocom_cellular_rs.Device.Spin.{spin}
use fibocom_cellular_rs.Device.Ending.Spinning.{spin-Ends}
use fibocom_cellular_rs.Device.Ready.{spin-ready}
use fibocom_cellular_rs.Examples.Jobs.{
  GsmClient, Publish, Notification, MqttEvent, JobDetails, JobStatus, Agents, unwrap, Main,
  on_world, spin_if_ready, start_job, report_progress, take_publish, take_event, turn, turns,
}

-- It always succeeds.
pub record Succeeds {S E A : Type 0} (m : M S E A) : Type 0 where
  pub fails : (s : S) (l : Log) (e : E) → (m s l).0 ≢ err e
  pub ends : Ends m

-- What the example takes for granted of the crates: all their calls return, and those whose results
-- it unwraps in the loop succeed.
pub record IsReliable {W E X OtaJob : Type 0} (gsm : GsmClient W E) (mqtt : MqttEvent W X)
    (agents : Agents W X OtaJob) : Type 0 where
  pub spin : Succeeds gsm.spin
  pub process_ota_job : (job : OtaJob) → Succeeds (agents.process_ota_job job)
  pub update_job_execution : Succeeds (agents.update_job_execution JobStatus.succeeded)
  pub yield_event : Ends mqtt.yield_event
  pub request_timer_irq : Ends agents.request_timer_irq
  pub handle_job_message : (message : Publish) → Ends (agents.handle_job_message message)
  pub handle_ota_message : (message : Publish) → Ends (agents.handle_ota_message message)

Ends-on_world : {W E A : Type 0} {m : M W E A} → Ends m → Ends (on_world m)
unfolding on_world
Ends-on_world h = record { ends = λ s l x e. h.ends s.world l x e }

Ends-unwrap : {W E F A : Type 0} {m : M W E A} → Succeeds m → Ends {E = F} (unwrap (on_world m))
unfolding unwrap on_world combinators
Ends-unwrap h = record {
  ends = λ s l x e. let f = h.fails s.world l in let n = h.ends.ends s.world l in grind arith;
}

ruleset main_rules = (ending, Ends-on_world, Ends-unwrap)

module _ {W E X OtaJob : Type 0} (gsm : GsmClient W E) (mqtt : MqttEvent W X)
    (agents : Agents W X OtaJob) (reliable : IsReliable gsm mqtt agents) {F : Type 0} where
  spin_if_ready-Ends : Ends {E = F} (spin_if_ready gsm)
  unfolding spin_if_ready
  spin_if_ready-Ends = let sp = reliable.spin in search main_rules depth 40

  start_job-Ends : (o : Option (JobDetails OtaJob)) → Ends {E = F} (start_job gsm mqtt agents o)
  unfolding start_job
  start_job-Ends none = search main_rules
  start_job-Ends (some (JobDetails.ota_job job)) =
      let po = reliable.process_ota_job job in search main_rules depth 40
  start_job-Ends (some JobDetails.other) = search main_rules

  report_progress-Ends : (n : ℕ) → Ends {E = F} (report_progress gsm mqtt agents n)
  unfolding report_progress
  report_progress-Ends n = let up = reliable.update_job_execution in search main_rules depth 40

  take_publish-Ends : (message : Publish) → Ends {E = F} (take_publish gsm mqtt agents message)
  unfolding take_publish
  take_publish-Ends message =
      let job = reliable.handle_job_message message in
      let ota = reliable.handle_ota_message message in
      search (main_rules, start_job-Ends, report_progress-Ends) depth 40

  take_event-Ends :
      (event : NbError X ⊎ Notification) → Ends {E = F} (take_event gsm mqtt agents event)
  unfolding take_event
  take_event-Ends (inr (Notification.publish message)) = take_publish-Ends message
  take_event-Ends (inr Notification.other) = search main_rules
  take_event-Ends (inl e) = search main_rules

  turns-Ends : (n : ℕ) → Ends {E = F} (turns gsm mqtt agents n)
  unfolding turns turn
  turns-Ends zero = search main_rules
  turns-Ends (suc n) =
      let ih = turns-Ends n in
      let ye = reliable.yield_event in
      let rt = reliable.request_timer_irq in
      search (main_rules, spin_if_ready-Ends, take_event-Ends) depth 40

-- An action without errors that ends succeeds.
Ends-ok : {S : Type 0} {m : M S ⊥ (Unit {0})} → Ends m → (s : S) (l : Log) → (m s l).0 ≡ ok tt
Ends-ok {m = m} h s l = go (m s l).0 refl
  where
    go : (o : Outcome ⊥ (Unit {0})) → (m s l).0 ≡ o → (m s l).0 ≡ ok tt
    go (ok u) e = e
    go (err x) e = absurd x
    go (halt x) e = absurd (h.ends s l x e)

-- If all calls of the crates return, and spinning, processing an accepted job and reporting it
-- succeed, the loop of linux_jobs runs round after round, whatever is published and whatever errors
-- the handling of messages reports.
pub turns_lem :
    {W E X OtaJob : Type 0} (gsm : GsmClient W E) (mqtt : MqttEvent W X)
    (agents : Agents W X OtaJob)
    → IsReliable gsm mqtt agents
    → (n : ℕ) (s : Main W) (l : Log) → (turns gsm mqtt agents {F = ⊥} n s l).0 ≡ ok tt
turns_lem gsm mqtt agents reliable n s l = Ends-ok (turns-Ends gsm mqtt agents reliable n) s l

-- A first part that panics makes the sequence panic.
panicked-first :
    {S E B : Type 0} (m : M S E (Unit {0})) (k : M S E B) (s : S) (l : Log)
    → (m s l).0 ≡ halt Fault.panicked
    → ((m >> k) s l).0 ≡ halt Fault.panicked
unfolding combinators
panicked-first m k s l h = ground arith

-- A spin that ends, but not well, is unwrapped.
spin_if_ready-panicked :
    {W E : Type 0} (gsm : GsmClient W E) {F : Type 0} (s : Main W) (l : Log)
    → s.urc_ready ≡ true
    → ((x : Fault) → (gsm.spin s.world l).0 ≢ halt x)
    → (gsm.spin s.world l).0 ≢ ok tt
    → (spin_if_ready gsm {F = F} s l).0 ≡ halt Fault.panicked
unfolding spin_if_ready unwrap on_world combinators
spin_if_ready-panicked gsm s l r ends bad = grind arith

-- With the driver's own spin as the client's, on a board whose clock moves on at every reading and
-- never goes back, whose busy loops may run more rounds than 30 s have ticks, and which has a power
-- pin: if a message is there to spin for, and the spin leaves the device not connected, the program
-- panics in this round.
pub turn-connected :
    (env : Env) {S Sock E X OtaJob : Type 0} (set : SocketSetOps S Sock)
    (gsm : GsmClient (Device S) (NbError DeviceError)) (mqtt : MqttEvent (Device S) X)
    (agents : Agents (Device S) X OtaJob) (s : Main (Device S)) (l : Log)
    → IsTimely env
    → env.power_pin ≡ true
    → gsm.spin ≡ spin env set
    → s.urc_ready ≡ true
    → (spin env set s.world l).1.network.status.conn_state ≢ ConnectionState.connected
    → (turn gsm mqtt agents {F = E} s l).0 ≡ halt Fault.panicked
unfolding turn
turn-connected env {S = S} set gsm mqtt agents s l timely pin same r lost =
    let run = ap (λ m. (m s.world l).0) same in
    panicked-first _ _ s l (
      spin_if_ready-panicked gsm s l r
        (λ x e. (spin-Ends env S timely pin set).ends s.world l x (sym run ∙ e))
        (λ e. lost (spin-ready env set s.world l (sym run ∙ e)).0))
