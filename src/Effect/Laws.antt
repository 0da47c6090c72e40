-- ===== src/Effect/Laws.antt =====
-- A rule for each combinator of the effect: what every part keeps, the whole keeps, whatever the
-- outcome is.
use fibocom_cellular_rs.Prelude.{
  Bool, true, false, Option, none, some, ◌⊎◌, inl, inr, if◌then◌else◌,
}
use fibocom_cellular_rs.Env.{Log}
use fibocom_cellular_rs.Effect.{
  either, M, Outcome, ok, err, halt, pure, throw, panic, diverge, ◌>>=◌, ◌>>◌, attempt, map_err,
  ignore, get, log, when, combinators,
}

-- `P` of state and log holds after `m` where it held before.
pub record Keeps {S E A : Type 0} (P : S → Log → Type 0) (m : M S E A) : Type 0 where
  pub keeps : (s : S) (l : Log) → P s l → P (m s l).1 (m s l).2

module _ {S E A : Type 0} {P : S → Log → Type 0} where
  pub Keeps-pure : (a : A) → Keeps {E = E} P (pure a)
  Keeps-pure a = record { keeps = λ s l p. p }

  pub Keeps-throw : (e : E) → Keeps {A = A} P (throw e)
  Keeps-throw e = record { keeps = λ s l p. p }

  pub Keeps-panic : Keeps {E = E} {A = A} P panic
  Keeps-panic = record { keeps = λ s l p. p }

  pub Keeps-diverge : Keeps {E = E} {A = A} P diverge
  Keeps-diverge = record { keeps = λ s l p. p }

  pub Keeps->>= :
      {B : Type 0} {m : M S E A} {f : A → M S E B}
      → Keeps P m
      → ((a : A) → Keeps P (f a))
      → Keeps P (m >>= f)
  unfolding combinators
  Keeps->>= {B} {m} {f} hm hf = record { keeps = λ s l p. go (m s l) (hm.keeps s l p) }
    where
      go :
          (r : Outcome E A × S × Log)
          → P r.1 r.2
          → let q = (λ (s : S) (l : Log). r) >>= f in P (q r.1 r.2).1 (q r.1 r.2).2
      go (ok a, s, l) p = (hf a).keeps s l p
      go (err e, s, l) p = p
      go (halt x, s, l) p = p

  pub Keeps-attempt : {F : Type 0} {m : M S E A} → Keeps P m → Keeps P (attempt {F = F} m)
  unfolding combinators
  Keeps-attempt {F} {m} hm = record { keeps = λ s l p. go (m s l) (hm.keeps s l p) }
    where
      go :
          (r : Outcome E A × S × Log)
          → P r.1 r.2
          → let q = attempt {F = F} (λ (s : S) (l : Log). r) in P (q r.1 r.2).1 (q r.1 r.2).2
      go (ok a, s, l) p = p
      go (err e, s, l) p = p
      go (halt x, s, l) p = p

  pub Keeps-ignore : {F : Type 0} {m : M S E A} → Keeps P m → Keeps P (ignore {F = F} m)
  unfolding combinators
  Keeps-ignore {F} {m} hm = record { keeps = λ s l p. go (m s l) (hm.keeps s l p) }
    where
      go :
          (r : Outcome E A × S × Log)
          → P r.1 r.2
          → let q = ignore {F = F} (λ (s : S) (l : Log). r) in P (q r.1 r.2).1 (q r.1 r.2).2
      go (ok a, s, l) p = p
      go (err e, s, l) p = p
      go (halt x, s, l) p = p

  pub Keeps-map_err : {F : Type 0} (f : E → F) {m : M S E A} → Keeps P m → Keeps P (map_err f m)
  unfolding combinators
  Keeps-map_err {F} f {m} hm = record { keeps = λ s l p. go (m s l) (hm.keeps s l p) }
    where
      go :
          (r : Outcome E A × S × Log)
          → P r.1 r.2
          → let q = map_err f (λ (s : S) (l : Log). r) in P (q r.1 r.2).1 (q r.1 r.2).2
      go (ok a, s, l) p = p
      go (err e, s, l) p = p
      go (halt x, s, l) p = p

  pub Keeps-if : (b : Bool) {m k : M S E A} → Keeps P m → Keeps P k → Keeps P (if b then m else k)
  Keeps-if true h g = h
  Keeps-if false h g = g

  -- A `match` on a result.
  pub Keeps-match :
      {F B : Type 0} {f : F → M S E A} {g : B → M S E A}
      → ((e : F) → Keeps P (f e))
      → ((b : B) → Keeps P (g b))
      → (r : F ⊎ B) → Keeps P (either f g r)
  Keeps-match h k (inl e) = h e
  Keeps-match h k (inr b) = k b

  pub Keeps-option :
      {B : Type 0} {m : M S E A} {f : B → M S E A}
      → Keeps P m
      → ((b : B) → Keeps P (f b))
      → (o : Option B) → Keeps P (elim o [ none ↦ m | some b ↦ f b ])
  Keeps-option h k none = h
  Keeps-option h k (some b) = k b

module _ {S E : Type 0} {P : S → Log → Type 0} where
  pub Keeps-log : Keeps {E = E} P log
  Keeps-log = record { keeps = λ s l p. p }

  pub Keeps->> :
      {B : Type 0} {m : M S E (Unit {0})} {k : M S E B} → Keeps P m → Keeps P k → Keeps P (m >> k)
  unfolding ◌>>◌
  Keeps->> hm hk = Keeps->>= hm (λ _. hk)

  pub Keeps-get : Keeps {E = E} P get
  Keeps-get = record { keeps = λ s l p. p }

  pub Keeps-when : (b : Bool) {m : M S E (Unit {0})} → Keeps P m → Keeps P (when b m)
  unfolding when
  Keeps-when b h = Keeps-if b h (Keeps-pure tt)

-- All rules but those of the actions that change the state or the log.
pub ruleset keeping = (
  Keeps-pure, Keeps-throw, Keeps-panic, Keeps-diverge, Keeps->>=, Keeps->>, Keeps-attempt,
  Keeps-ignore, Keeps-map_err, Keeps-if, Keeps-match, Keeps-option, Keeps-get, Keeps-log,
  Keeps-when,
)
