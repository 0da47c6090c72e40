-- ===== src/Effect/Ends.antt =====
-- A rule for each combinator of the effect: what always ends with an answer or an error, neither
-- by a panic nor by running on for ever.
use fibocom_cellular_rs.Prelude.{
  Bool, true, false, Option, none, some, ◌⊎◌, inl, inr, if◌then◌else◌, ◌≡◌, ◌≢◌, sym, subst, arith,
}
use fibocom_cellular_rs.Env.{Env, Event, Log}
use fibocom_cellular_rs.Effect.{
  either, M, Fault, Outcome, ok, err, halt, pure, throw, ◌>>=◌, ◌>>◌, attempt, map_err, ignore, get,
  log, modify, when, emit, now, combinators,
}

pub record Ends {S E A : Type 0} (m : M S E A) : Type 0 where
  pub ends : (s : S) (l : Log) (x : Fault) → (m s l).0 ≢ halt x

module _ {S E A : Type 0} where
  pub Ends-pure : (a : A) → Ends {S = S} {E = E} (pure a)
  Ends-pure a = record { ends = λ s l x h. ground arith }

  pub Ends-throw : (e : E) → Ends {S = S} {A = A} (throw e)
  Ends-throw e = record { ends = λ s l x h. ground arith }

  pub Ends->>= :
      {B : Type 0} {m : M S E A} {f : A → M S E B}
      → Ends m
      → ((a : A) → Ends (f a))
      → Ends (m >>= f)
  unfolding combinators
  Ends->>= {B} {m} {f} hm hf = record { ends = λ s l x h. go (m s l) x h (hm.ends s l x) }
    where
      go :
          (r : Outcome E A × S × Log) (x : Fault)
          → let q = (λ (s : S) (l : Log). r) >>= f in
            (q r.1 r.2).0 ≡ halt x → (r.0 ≡ halt x → ⊥) → ⊥
      go (ok a, s, l) x h p = (hf a).ends s l x h
      go (err e, s, l) x h p = ground arith
      go (halt y, s, l) x h p = p (ground arith)

  pub Ends-attempt : {F : Type 0} {m : M S E A} → Ends m → Ends (attempt {F = F} m)
  unfolding combinators
  Ends-attempt {F} {m} hm = record { ends = λ s l x h. let p = hm.ends s l x in ground arith }

  pub Ends-ignore : {F : Type 0} {m : M S E A} → Ends m → Ends (ignore {F = F} m)
  unfolding combinators
  Ends-ignore {F} {m} hm = record { ends = λ s l x h. let p = hm.ends s l x in ground arith }

  pub Ends-map_err : {F : Type 0} (f : E → F) {m : M S E A} → Ends m → Ends (map_err f m)
  unfolding combinators
  Ends-map_err {F} f {m} hm = record { ends = λ s l x h. let p = hm.ends s l x in ground arith }

  pub Ends-if : (b : Bool) {m k : M S E A} → Ends m → Ends k → Ends (if b then m else k)
  Ends-if true h g = h
  Ends-if false h g = g

  -- Only the branch that is taken counts.
  pub Ends-if_true :
      {b : Bool} {m : M S E A} (k : M S E A) → b ≡ true → Ends m → Ends (if b then m else k)
  Ends-if_true {m = m} k e h = subst (λ b. Ends (if b then m else k)) (sym e) h

  pub Ends-match :
      {F B : Type 0} {f : F → M S E A} {g : B → M S E A}
      → ((e : F) → Ends (f e))
      → ((b : B) → Ends (g b))
      → (r : F ⊎ B) → Ends (either f g r)
  Ends-match h k (inl e) = h e
  Ends-match h k (inr b) = k b

  pub Ends-option :
      {B : Type 0} {m : M S E A} {f : B → M S E A}
      → Ends m
      → ((b : B) → Ends (f b))
      → (o : Option B) → Ends (elim o [ none ↦ m | some b ↦ f b ])
  Ends-option h k none = h
  Ends-option h k (some b) = k b

module _ {S E : Type 0} where
  pub Ends->> : {B : Type 0} {m : M S E (Unit {0})} {k : M S E B} → Ends m → Ends k → Ends (m >> k)
  unfolding ◌>>◌
  Ends->> hm hk = Ends->>= hm (λ _. hk)

  pub Ends-get : Ends {S = S} {E = E} get
  Ends-get = record { ends = λ s l x h. ground arith }

  pub Ends-log : Ends {S = S} {E = E} log
  Ends-log = record { ends = λ s l x h. ground arith }

  pub Ends-modify : (f : S → S) → Ends {E = E} (modify f)
  unfolding modify
  Ends-modify f = record { ends = λ s l x h. ground arith }

  pub Ends-emit : (e : Event) → Ends {S = S} {E = E} (emit e)
  Ends-emit e = record { ends = λ s l x h. ground arith }

  pub Ends-now : (env : Env) → Ends {S = S} {E = E} (now env)
  Ends-now env = record { ends = λ s l x h. ground arith }

  pub Ends-when : (b : Bool) {m : M S E (Unit {0})} → Ends m → Ends (when b m)
  unfolding when
  Ends-when b h = Ends-if b h (Ends-pure tt)

pub ruleset ending = (
  Ends-pure, Ends-throw, Ends->>=, Ends->>, Ends-attempt, Ends-ignore, Ends-map_err, Ends-if,
  Ends-match, Ends-option, Ends-get, Ends-log, Ends-modify, Ends-emit, Ends-now, Ends-when,
)
