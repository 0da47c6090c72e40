-- ===== src/Effect/Yields.antt =====
-- A rule for each combinator of the effect: what holds of the state once an action has succeeded.
use fibocom_cellular_rs.Prelude.{
  Bool, true, false, not, ◌⊎◌, inl, inr, if◌then◌else◌, ◌≡◌, refl, arith,
}
use fibocom_cellular_rs.Env.{Log}
use fibocom_cellular_rs.Effect.{
  either, M, Outcome, ok, err, halt, throw, ◌>>=◌, ◌>>◌, map_err, get, when, combinators,
}

-- `Q` holds of the state wherever `m` succeeds.
pub record Yields {S E A : Type 0} (Q : S → Type 0) (m : M S E A) : Type 0 where
  pub yields : (s : S) (l : Log) (a : A) → (m s l).0 ≡ ok a → Q (m s l).1

module _ {S E A : Type 0} {Q : S → Type 0} where
  pub Yields-throw : (e : E) → Yields {A = A} Q (throw e)
  Yields-throw e = record { yields = λ s l a h. ground arith }

  pub Yields->>= :
      {B : Type 0} (m : M S E A) {f : A → M S E B} → ((a : A) → Yields Q (f a)) → Yields Q (m >>= f)
  unfolding combinators
  Yields->>= {B} m {f} hf = record { yields = λ s l b h. go (m s l) b h }
    where
      go :
          (r : Outcome E A × S × Log) (b : B)
          → let q = (λ (s : S) (l : Log). r) >>= f in (q r.1 r.2).0 ≡ ok b → Q (q r.1 r.2).1
      go (ok a, s, l) b h = (hf a).yields s l b h
      go (err e, s, l) b h = ground arith
      go (halt x, s, l) b h = ground arith

  pub Yields->> : (m : M S E (Unit {0})) {k : M S E A} → Yields Q k → Yields Q (m >> k)
  unfolding ◌>>◌ combinators
  Yields->> m {k} hk = record { yields = λ s l b h. go (m s l) b h }
    where
      go :
          (r : Outcome E (Unit {0}) × S × Log) (b : A)
          → let q = (λ (s : S) (l : Log). r) >> k in (q r.1 r.2).0 ≡ ok b → Q (q r.1 r.2).1
      go (ok a, s, l) b h = hk.yields s l b h
      go (err e, s, l) b h = ground arith
      go (halt x, s, l) b h = ground arith

  pub Yields-map_err : {F : Type 0} (f : E → F) {m : M S E A} → Yields Q m → Yields Q (map_err f m)
  unfolding combinators
  Yields-map_err {F} f {m} hm = record { yields = λ s l a h. go (m s l) a h (hm.yields s l a) }
    where
      go :
          (r : Outcome E A × S × Log) (a : A)
          → let q = map_err f (λ (s : S) (l : Log). r) in
            (q r.1 r.2).0 ≡ ok a → (r.0 ≡ ok a → Q r.1) → Q (q r.1 r.2).1
      go (ok b, s, l) a h p = p (ground arith)
      go (err e, s, l) a h p = ground arith
      go (halt x, s, l) a h p = ground arith

  pub Yields-if :
      (b : Bool) {m k : M S E A} → Yields Q m → Yields Q k → Yields Q (if b then m else k)
  Yields-if true h g = h
  Yields-if false h g = g

  pub Yields-match :
      {F B : Type 0} {f : F → M S E A} {g : B → M S E A}
      → ((e : F) → Yields Q (f e))
      → ((b : B) → Yields Q (g b))
      → (r : F ⊎ B) → Yields Q (either f g r)
  Yields-match h k (inl e) = h e
  Yields-match h k (inr b) = k b

module _ {S E : Type 0} {Q : S → Type 0} where
  -- What is done only where a test of the state fails.
  pub Yields-unless :
      (test : S → Bool) {m : M S E (Unit {0})}
      → ((s : S) → test s ≡ true → Q s)
      → Yields Q m
      → Yields Q (get >>= λ s. when (not (test s)) m)
  unfolding combinators
  Yields-unless test {m} ht hm = record { yields = λ s l a h. go s l a (test s) refl h }
    where
      go :
          (s : S) (l : Log) (a : Unit {0}) (b : Bool)
          → test s ≡ b
          → (when (not b) m s l).0 ≡ ok a
          → Q (when (not b) m s l).1
      go s l a true e h = ht s e
      go s l a false e h = hm.yields s l a h

  -- What is done only where a test of the state holds.
  pub Yields-only :
      (test : S → Bool) {m : M S E (Unit {0})}
      → ((s : S) → test s ≡ false → Q s)
      → Yields Q m
      → Yields Q (get >>= λ s. when (test s) m)
  unfolding combinators
  Yields-only test {m} ht hm = record { yields = λ s l a h. go s l a (test s) refl h }
    where
      go :
          (s : S) (l : Log) (a : Unit {0}) (b : Bool)
          → test s ≡ b
          → (when b m s l).0 ≡ ok a
          → Q (when b m s l).1
      go s l a false e h = ht s e
      go s l a true e h = hm.yields s l a h

-- All rules but those of the actions that change the state.
pub ruleset yielding =
    (Yields-throw, Yields->>=, Yields->>, Yields-map_err, Yields-if, Yields-match)
