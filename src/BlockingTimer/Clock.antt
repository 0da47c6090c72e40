-- ===== src/BlockingTimer/Clock.antt =====
-- The clock of a board on which it never goes back.
use fibocom_cellular_rs.Prelude.{
  ℕ, zero, suc, ◌≤◌, ◌∷◌, ◌≡◌, ◌≢◌, refl, Bool, true, false, if◌then◌else◌, arith,
}
use fibocom_cellular_rs.Env.{Env, Event, Log, Duration, IsMonotone, IsAdvancing}
use fibocom_cellular_rs.Effect.{M, Fault, Outcome, ok, err, halt, now, ◌>>=◌, ◌>>◌, combinators}
use fibocom_cellular_rs.Effect.Laws.{Keeps}
use fibocom_cellular_rs.Effect.Ends.{Ends}
use fibocom_cellular_rs.BlockingTimer.{wait_until, wait}

-- The time `t` is past.
abbrev pub IsSince : {A : Type 0} → Env → ℕ → A → Log → Type 0
IsSince env t s l = t ≤ env.now l

module _ (env : Env) (monotone : IsMonotone env) (t : ℕ) {S : Type 0} where
  wait_until_since :
      (E : Type 0) (fuel e : ℕ) (s : S) (l : Log)
      → t ≤ env.now l
      → t ≤ env.now (wait_until env {E = E} fuel e s l).2
  unfolding wait_until
  wait_until_since E zero e s l h = h
  wait_until_since E (suc fuel) e s l h =
      let mono = monotone.mono Event.clock_read l in
      let ih = wait_until_since E fuel e s (Event.clock_read ∷ l) in ground arith

  pub wait-IsSince :
      {E : Type 0} (d : Duration) → Keeps {S = S} {E = E} (IsSince env t) (wait env d)
  unfolding wait combinators
  wait-IsSince {E} d = record {
    keeps = λ s l p.
        let mono = monotone.mono Event.clock_read l in
        wait_until_since E env.spin_limit _ s (Event.clock_read ∷ l) (ground arith);
  }

-- What ends with an answer or an error when it starts at the time `t` or later.
pub record EndsSince (env : Env) (t : ℕ) {S E A : Type 0} (m : M S E A) : Type 0 where
  pub ends : (s : S) (l : Log) (x : Fault) → t ≤ env.now l → (m s l).0 ≢ halt x

module _ (env : Env) {S E A : Type 0} where
  pub EndsSince-Ends : (t : ℕ) {m : M S E A} → Ends m → EndsSince env t m
  EndsSince-Ends t h = record { ends = λ s l x p. h.ends s l x }

  pub EndsSince-if :
      (t : ℕ) (b : Bool) {m k : M S E A}
      → (b ≡ true → EndsSince env t m)
      → (b ≡ false → EndsSince env t k)
      → EndsSince env t (if b then m else k)
  EndsSince-if t true h g = h refl
  EndsSince-if t false h g = g refl

  pub EndsSince->>= :
      (t : ℕ) {B : Type 0} {m : M S E A} {f : A → M S E B}
      → Ends m
      → Keeps (IsSince env t) m
      → ((a : A) → EndsSince env t (f a))
      → EndsSince env t (m >>= f)
  unfolding combinators
  EndsSince->>= t {m = m} {f = f} hm km hf = record {
    ends = λ s l x p h. go s l x h (m s l).0 refl (km.keeps s l p);
  }
    where
      go :
          (s : S) (l : Log) (x : Fault)
          → ((m >>= f) s l).0 ≡ halt x
          → (o : Outcome E A) → (m s l).0 ≡ o
          → t ≤ env.now (m s l).2
          → ⊥
      go s l x h (ok a) e p = let hf' = (hf a).ends (m s l).1 (m s l).2 x p in ground arith
      go s l x h (err e') e p = ground arith
      go s l x h (halt y) e p = let hm' = hm.ends s l y in ground arith

pub EndsSince->> :
    (env : Env) (t : ℕ) {S E B : Type 0} {m : M S E (Unit {0})} {k : M S E B}
    → Ends m
    → Keeps (IsSince env t) m
    → EndsSince env t k
    → EndsSince env t (m >> k)
unfolding ◌>>◌
EndsSince->> env t hm km hk = EndsSince->>= env t hm km (λ _. hk)

module _ (env : Env) {S E A : Type 0} where
  pub EndsSince-then :
      (t : ℕ) {B : Type 0} {m : M S E A} {f : A → M S E B}
      → EndsSince env t m
      → ((a : A) → Ends (f a))
      → EndsSince env t (m >>= f)
  unfolding combinators
  EndsSince-then t {m = m} {f = f} hm hf = record {
    ends = λ s l x p h. go s l x h p (m s l).0 refl;
  }
    where
      go :
          (s : S) (l : Log) (x : Fault)
          → ((m >>= f) s l).0 ≡ halt x
          → t ≤ env.now l
          → (o : Outcome E A) → (m s l).0 ≡ o
          → ⊥
      go s l x h p (ok a) e = let hf' = (hf a).ends (m s l).1 (m s l).2 x in ground arith
      go s l x h p (err e') e = ground arith
      go s l x h p (halt y) e = let hm' = hm.ends s l y p in ground arith

  pub EndsSince-later : {t : ℕ} {m : M S E A} → EndsSince env t m → EndsSince env (suc t) m
  EndsSince-later h = record { ends = λ s l x p. h.ends s l x (omega arith) }

  pub Ends-EndsSince : {m : M S E A} → EndsSince env 0 m → Ends m
  Ends-EndsSince h = record { ends = λ s l x. h.ends s l x (ground arith) }

-- What follows a reading of the clock starts later than it.
pub EndsSince-now :
    (env : Env) (t : ℕ)
    → IsAdvancing env
    → {S E B : Type 0} {f : ℕ → M S E B} → ((ts : ℕ) → t ≤ ts → EndsSince env (suc ts) (f ts))
    → EndsSince env t (now env >>= f)
unfolding combinators
EndsSince-now env t adv h = record {
  ends = λ s l x p.
      (h (env.now l) p).ends s (Event.clock_read ∷ l) x (let a = adv.step l in ground arith);
}
