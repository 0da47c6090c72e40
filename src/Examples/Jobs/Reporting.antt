-- ===== src/Examples/Jobs/Reporting.antt =====
-- examples/linux_jobs/src/main.rs: when a job is reported as done.
use fibocom_cellular_rs.Prelude.{
  ℕ, zero, suc, ◌≡◌, ◌≢◌, refl, ap, ◌∙◌, false, Option, none, some, ◌⊎◌, inl, inr, arith,
}
use fibocom_cellular_rs.Error.{NbError}
use fibocom_cellular_rs.Env.{Log}
use fibocom_cellular_rs.Effect.{
  M, Outcome, ok, err, halt, modify, attempt, either, pure, ◌>>=◌, combinators,
}
use fibocom_cellular_rs.Effect.Laws.{Keeps, keeping}
use fibocom_cellular_rs.Examples.Jobs.{
  GsmClient, Publish, Notification, MqttEvent, JobDetails, Agents, unwrap, Main, on_world,
  spin_if_ready, start_job, report_progress, take_publish, take_event, turn, turns,
}

-- What all the calls in a round keep but the report, and no progress is complete.
pub record IsUnreported {W E X OtaJob : Type 0} (P : W → Log → Type 0) (gsm : GsmClient W E)
    (mqtt : MqttEvent W X) (agents : Agents W X OtaJob) : Type 0 where
  pub spin : Keeps P gsm.spin
  pub process_ota_job : (job : OtaJob) → Keeps P (agents.process_ota_job job)
  pub yield_event : Keeps P mqtt.yield_event
  pub request_timer_irq : Keeps P agents.request_timer_irq
  pub handle_job_message : (message : Publish) → Keeps P (agents.handle_job_message message)
  pub handle_ota_message : (message : Publish) → Keeps P (agents.handle_ota_message message)
  pub incomplete :
      (message : Publish) (w : W) (l : Log) → (agents.handle_ota_message message w l).0 ≢ ok 100

-- A predicate on the world, of the whole state.
record OfWorld {W : Type 0} (P : W → Log → Type 0) (s : Main W) (l : Log) : Type 0 where
  held : P s.world l

Keeps-unwrap :
    {S E F A : Type 0} {Q : S → Log → Type 0} {m : M S E A} → Keeps Q m → Keeps {E = F} Q (unwrap m)
unfolding unwrap
Keeps-unwrap h = search keeping depth 40

-- Only the answers that there can be count.
Keeps-answers :
    {S E F A B : Type 0} {Q : S → Log → Type 0} (m : M S E A) (f : E ⊎ A → M S F B)
    → Keeps Q m
    → ((e : E) → Keeps Q (f (inl e)))
    → ((a : A) (s : S) (l : Log) → (m s l).0 ≡ ok a → Keeps Q (f (inr a)))
    → Keeps Q (attempt m >>= f)
unfolding combinators
Keeps-answers {S} {E} {F} {A} {B} {Q} m f h he ha = record {
  keeps = λ s l p. go (m s l) (h.keeps s l p) (λ a. ha a s l);
}
  where
    go :
        (r : Outcome E A × S × Log)
        → Q r.1 r.2
        → ((a : A) → r.0 ≡ ok a → Keeps Q (f (inr a)))
        → let q = attempt {F = F} (λ (s : S) (l : Log). r) >>= f in Q (q r.1 r.2).1 (q r.1 r.2).2
    go (ok a, s, l) p k = (k a refl).keeps s l p
    go (err e, s, l) p k = (he e).keeps s l p
    go (halt x, s, l) p k = p

module _ {W : Type 0} {P : W → Log → Type 0} where
  Keeps-on_world : {E A : Type 0} {m : M W E A} → Keeps P m → Keeps (OfWorld P) (on_world m)
  unfolding on_world
  Keeps-on_world h = record { keeps = λ s l p. record { held = h.keeps s.world l p.held } }

  Keeps-urc_ready :
      {F : Type 0} → Keeps {E = F} (OfWorld P) (modify λ s. record s { urc_ready = false })
  unfolding modify
  Keeps-urc_ready = record { keeps = λ s l p. record { held = p.held } }

ruleset world_rules = (keeping, Keeps-on_world, Keeps-unwrap, Keeps-urc_ready)

handle_ota_message-incomplete :
    {W E X OtaJob : Type 0} (P : W → Log → Type 0) (gsm : GsmClient W E) (mqtt : MqttEvent W X)
    (agents : Agents W X OtaJob)
    → IsUnreported P gsm mqtt agents
    → (message : Publish) (s : Main W) (l : Log) (n : ℕ)
    → (on_world (agents.handle_ota_message message) s l).0 ≡ ok n
    → n ≢ 100
unfolding on_world
handle_ota_message-incomplete P gsm mqtt agents unreported message s l n e h =
    unreported.incomplete message s.world l (e ∙ ap ok h)

module _ {W E X OtaJob : Type 0} (P : W → Log → Type 0) (gsm : GsmClient W E) (mqtt : MqttEvent W X)
    (agents : Agents W X OtaJob) (unreported : IsUnreported P gsm mqtt agents) {F : Type 0} where
  spin_if_ready-OfWorld : Keeps {E = F} (OfWorld P) (spin_if_ready gsm)
  unfolding spin_if_ready
  spin_if_ready-OfWorld = let sp = unreported.spin in search world_rules depth 40

  start_job-OfWorld :
      (o : Option (JobDetails OtaJob)) → Keeps {E = F} (OfWorld P) (start_job gsm mqtt agents o)
  unfolding start_job
  start_job-OfWorld none = search world_rules
  start_job-OfWorld (some (JobDetails.ota_job job)) =
      let po = unreported.process_ota_job job in search world_rules depth 40
  start_job-OfWorld (some JobDetails.other) = search world_rules

  report_progress-OfWorld :
      (n : ℕ) → n ≢ 100 → Keeps {E = F} (OfWorld P) (report_progress gsm mqtt agents n)
  unfolding report_progress combinators
  report_progress-OfWorld n h = record { keeps = λ s l p. ground arith }

  take_ota-OfWorld :
      (message : Publish)
      → Keeps {E = F} (OfWorld P) (do
        progress ← attempt (on_world (agents.handle_ota_message message))
        either (λ _. pure tt) (report_progress gsm mqtt agents) progress)
  take_ota-OfWorld message =
      let ota = unreported.handle_ota_message message in
      Keeps-answers _ _ (Keeps-on_world ota) (λ e. search world_rules)
        (λ n s l e.
          report_progress-OfWorld n
            (handle_ota_message-incomplete P gsm mqtt agents unreported message s l n e))

  take_publish-OfWorld :
      (message : Publish) → Keeps {E = F} (OfWorld P) (take_publish gsm mqtt agents message)
  unfolding take_publish
  take_publish-OfWorld message =
      let job = unreported.handle_job_message message in
      search (world_rules, start_job-OfWorld, take_ota-OfWorld) depth 40

  take_event-OfWorld :
      (event : NbError X ⊎ Notification)
      → Keeps {E = F} (OfWorld P) (take_event gsm mqtt agents event)
  unfolding take_event
  take_event-OfWorld (inr (Notification.publish message)) = take_publish-OfWorld message
  take_event-OfWorld (inr Notification.other) = search world_rules
  take_event-OfWorld (inl e) = search world_rules

  turns-OfWorld : (n : ℕ) → Keeps {E = F} (OfWorld P) (turns gsm mqtt agents n)
  unfolding turns turn
  turns-OfWorld zero = search world_rules
  turns-OfWorld (suc n) =
      let ih = turns-OfWorld n in
      let ye = unreported.yield_event in
      let rt = unreported.request_timer_irq in
      search (world_rules, spin_if_ready-OfWorld, take_event-OfWorld) depth 40

-- A job is reported as succeeded only when the agent for updates answers a message with a progress
-- of 100: what holds before the loop of linux_jobs, and is kept by every call in it but the report,
-- holds behind any number of rounds, as long as no such answer comes.
pub turns-unreported :
    {W E X OtaJob : Type 0} (P : W → Log → Type 0) (gsm : GsmClient W E) (mqtt : MqttEvent W X)
    (agents : Agents W X OtaJob)
    → IsUnreported P gsm mqtt agents
    → (F : Type 0) (n : ℕ) (s : Main W) (l : Log) → P s.world l
    → P (turns gsm mqtt agents {F = F} n s l).1.world (turns gsm mqtt agents {F = F} n s l).2
turns-unreported P gsm mqtt agents unreported F n s l p =
    ((turns-OfWorld P gsm mqtt agents unreported {F = F} n).keeps s l (record { held = p })).held
