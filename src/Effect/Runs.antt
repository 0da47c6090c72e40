-- ===== src/Effect/Runs.antt =====
-- What a run of a sequence consists of when it succeeds: each part succeeded, and the next one ran
-- from where it ended.
use fibocom_cellular_rs.Prelude.{◌≡◌, refl, arith, ◌⊎◌, inl, inr}
use fibocom_cellular_rs.Env.{Log}
use fibocom_cellular_rs.Effect.{either, M, Outcome, ok, err, halt, ◌>>=◌, ◌>>◌, combinators}

-- Where this run of `m` succeeds, `Q` holds of the log.
pub record Done {S E A : Type 0} (Q : Log → Type 0) (m : M S E A) (s : S) (l : Log) : Type 0 where
  pub done : (a : A) → (m s l).0 ≡ ok a → Q (m s l).2

module _ {S E A B : Type 0} {Q : Log → Type 0} where
  pub Done->>= :
      (m : M S E A) (f : A → M S E B) {s : S} {l : Log}
      → ((a : A) → (m s l).0 ≡ ok a → Done Q (f a) (m s l).1 (m s l).2)
      → Done Q (m >>= f) s l
  unfolding combinators
  Done->>= m f {s} {l} hf = record { done = λ b h. go (m s l) hf b h }
    where
      go :
          (r : Outcome E A × S × Log)
          → ((a : A) → r.0 ≡ ok a → Done Q (f a) r.1 r.2)
          → (b : B)
          → let q = (λ (s : S) (l : Log). r) >>= f in (q r.1 r.2).0 ≡ ok b → Q (q r.1 r.2).2
      go (ok a, s', l') hf b h = (hf a refl).done b h
      go (err e, s', l') hf b h = ground arith
      go (halt x, s', l') hf b h = ground arith

pub Done->> :
    {S E B : Type 0} {Q : Log → Type 0} (m : M S E (Unit {0})) (k : M S E B) {s : S} {l : Log}
    → ((m s l).0 ≡ ok tt → Done Q k (m s l).1 (m s l).2)
    → Done Q (m >> k) s l
unfolding ◌>>◌
Done->> m k hk = Done->>= m (λ _. k) λ _ h. hk h

pub Done-either->> :
    {S E F A B : Type 0} {Q : Log → Type 0} (f : F → M S E (Unit {0})) (g : A → M S E (Unit {0}))
    (k : M S E B) {s : S} {l : Log} (r : F ⊎ A)
    → ((e : F) → r ≡ inl e → Done Q (f e >> k) s l)
    → ((a : A) → r ≡ inr a → Done Q (g a >> k) s l)
    → Done Q (either f g r >> k) s l
Done-either->> f g k (inl e) hf hg = hf e refl
Done-either->> f g k (inr a) hf hg = hg a refl

-- Where a sequence succeeds its first part does.
pub ok-first :
    {S E B : Type 0} (m : M S E (Unit {0})) (k : M S E B) (s : S) (l : Log) (b : B)
    → ((m >> k) s l).0 ≡ ok b
    → (m s l).0 ≡ ok tt
unfolding ◌>>◌ combinators
ok-first m k s l b h = ground arith
