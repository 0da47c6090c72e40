-- ===== src/BlockingTimer/Waiting.antt =====
-- blocking_timer.rs: a wait ends, when it should, and does nothing but read the clock.
use fibocom_cellular_rs.Prelude.{ℕ, zero, suc, ◌+◌, ◌≤◌, ◌<◌, ◌≡◌, refl, sym, subst, ◌∷◌, arith}
use fibocom_cellular_rs.Env.{Env, Event, Log, Duration, ticks, IsAdvancing, commands}
use fibocom_cellular_rs.Effect.{ok, combinators}
use fibocom_cellular_rs.Effect.Laws.{Keeps}
use fibocom_cellular_rs.Effect.Ends.{Ends}
use fibocom_cellular_rs.BlockingTimer.{wait_until, wait}

module _ (env : Env) {S : Type 0} where
  wait_until_state :
      (E : Type 0) (fuel e : ℕ) (s : S) (l : Log) → (wait_until env {E = E} fuel e s l).1 ≡ s
  unfolding wait_until
  wait_until_state E zero e s l = refl
  wait_until_state E (suc fuel) e s l = let ih = wait_until_state E fuel e s in grind arith

  wait_state : (E : Type 0) (d : Duration) (s : S) (l : Log) → (wait env {E = E} d s l).1 ≡ s
  unfolding wait combinators
  wait_state E d s l = wait_until_state E _ _ s _

  -- A wait keeps whatever is said of the state alone.
  pub Keeps-wait :
      {E : Type 0} (P : S → Type 0) (d : Duration) → Keeps {E = E} (λ s l. P s) (wait env d)
  Keeps-wait {E} P d = record { keeps = λ s l p. subst P (sym (wait_state E d s l)) p }

  commands-wait_until :
      (E : Type 0) (fuel e : ℕ) (s : S) (l : Log)
      → commands (wait_until env {E = E} fuel e s l).2 ≡ commands l
  unfolding wait_until
  commands-wait_until E zero e s l = refl
  commands-wait_until E (suc fuel) e s l =
      let ih = commands-wait_until E fuel e s (Event.clock_read ∷ l) in grind arith

  wait_until_ends :
      (E : Type 0)
      → IsAdvancing env
      → (fuel e : ℕ) (s : S) (l : Log) → e ≤ env.now l + fuel
      → ((wait_until env {E = E} (suc fuel) e s l).0 ≡ ok tt)
        × (e < env.now (wait_until env {E = E} (suc fuel) e s l).2)
  unfolding wait_until
  wait_until_ends E adv zero e s l h = let st = adv.step l in ground arith
  wait_until_ends E adv (suc fuel) e s l h =
      let ih = wait_until_ends E adv fuel e s (Event.clock_read ∷ l) in
      let st = adv.step l in grind arith

  commands-wait :
      (E : Type 0) (d : Duration) (s : S) (l : Log)
      → commands (wait env {E = E} d s l).2 ≡ commands l
  unfolding wait combinators
  commands-wait E d s l =
      commands-wait_until E env.spin_limit (env.now l + ticks env d) s (Event.clock_read ∷ l)

  wait_ends :
      (E : Type 0)
      → IsAdvancing env
      → (d : Duration) (s : S) (l : Log) → ticks env d < env.spin_limit
      → ((wait env {E = E} d s l).0 ≡ ok tt)
        × (env.now l + ticks env d < env.now (wait env {E = E} d s l).2)
  unfolding wait combinators
  wait_ends E adv d s l h = bounded env.spin_limit h
    where
      bounded :
          (limit : ℕ)
          → ticks env d < limit
          → ((wait_until env {E = E} limit (env.now l + ticks env d) s (Event.clock_read ∷ l)).0
              ≡ ok tt)
            × (env.now l + ticks env d
                < env.now
                    (wait_until env {E = E} limit
                      (env.now l + ticks env d)
                      s
                      (Event.clock_read ∷ l)).2)
      bounded zero h = ground arith
      bounded (suc limit) h = wait_until_ends E adv limit _ s _ (let st = adv.step l in omega arith)

-- A wait sends nothing and leaves the state alone; if the clock moves on at every reading and the
-- busy loop may run as many rounds as the duration has ticks, it ends, and by then the clock has
-- passed the time of its start by more than the duration.
pub wait_lem :
    (env : Env)
    → IsAdvancing env
    → {S : Type 0} (E : Type 0) (d : Duration) (s : S) (l : Log) → ticks env d < env.spin_limit
    → ((wait env {E = E} d s l).0 ≡ ok tt)
      × ((wait env {E = E} d s l).1 ≡ s)
      × (commands (wait env {E = E} d s l).2 ≡ commands l)
      × (env.now l + ticks env d < env.now (wait env {E = E} d s l).2)
wait_lem env adv E d s l h = (ends.0, wait_state env E d s l, commands-wait env E d s l, ends.1)
  where
    ends :
        ((wait env {E = E} d s l).0 ≡ ok tt)
        × (env.now l + ticks env d < env.now (wait env {E = E} d s l).2)
    ends = wait_ends env E adv d s l h

-- No wait of the driver runs on for ever, as far as the board's loops end.
pub wait-Ends :
    (env : Env) {S E : Type 0} (d : Duration)
    → IsAdvancing env
    → ticks env d < env.spin_limit
    → Ends {S = S} {E = E} (wait env d)
wait-Ends env {E} d adv h = record {
  ends = λ s l x e. let w = wait_ends env E adv d s l h in ground arith;
}
