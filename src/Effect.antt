-- ===== src/Effect.antt =====
-- Stateful, fallible code: a function of the state and of the log of what was done outside, which
-- returns an outcome, the state and the log. State that was changed before an error stays changed.
pub mod Laws
pub mod Yields
pub mod Runs
pub mod Ends
use fibocom_cellular_rs.Prelude.{
  ℕ, zero, suc, Bool, ◌⊎◌, inl, inr, ◌∷◌, ◌+◌, leb, if◌then◌else◌, ◌≡◌, refl,
}
use fibocom_cellular_rs.Env.{Env, Event, Log, Duration, ticks}

-- How a run stops without an answer: a panic, or a busy loop or recursion that has used up the
-- number of rounds that the model grants it.
pub data Fault : Type 0 where
  panicked out_of_fuel : Fault

pub data Outcome (E A : Type 0) : Type 0 where
  ok : A → Outcome E A
  err : E → Outcome E A
  halt : Fault → Outcome E A

abbrev pub M : Type 0 → Type 0 → Type 0 → Type 0
M S E A = S → Log → Outcome E A × S × Log

abbrev pub pure : {S E A : Type 0} → A → M S E A
pure a s l = (ok a, s, l)

abbrev pub throw : {S E A : Type 0} → E → M S E A
throw e s l = (err e, s, l)

abbrev pub panic : {S E A : Type 0} → M S E A
panic s l = (halt Fault.panicked, s, l)

-- A loop or recursion that has used up its rounds.
abbrev pub diverge : {S E A : Type 0} → M S E A
diverge s l = (halt Fault.out_of_fuel, s, l)

infixl 5 ◌>>=◌ ◌>>◌
unfoldable pub ◌>>=◌ : {S E A B : Type 0} → M S E A → (A → M S E B) → M S E B
◌>>=◌ m f s l =
    let r = m s l in
    elim r.0 [ ok a ↦ f a r.1 r.2 | err e ↦ (err e, r.1, r.2) | halt x ↦ (halt x, r.1, r.2) ]

unfoldable pub ◌>>◌ : {S E B : Type 0} → M S E (Unit {0}) → M S E B → M S E B
unfolding ◌>>=◌
◌>>◌ m k = m >>= λ _. k

-- The result as a value, for `.ok()`, `.is_err()` and `match`.
unfoldable pub attempt : {S E F A : Type 0} → M S E A → M S F (E ⊎ A)
attempt m s l =
    let r = m s l in
    elim r.0 [
      | ok a ↦ (ok (inr a), r.1, r.2)
      | err e ↦ (ok (inl e), r.1, r.2)
      | halt x ↦ (halt x, r.1, r.2)
    ]

-- `match` on a result.
abbrev pub either : {F A B : Type 0} → (F → B) → (A → B) → F ⊎ A → B
either f g (inl e) = f e
either f g (inr a) = g a

-- `.map_err(f)`, which `?` does by `From`.
unfoldable pub map_err : {S E F A : Type 0} → (E → F) → M S E A → M S F A
map_err f m s l =
    let r = m s l in
    elim r.0 [
      | ok a ↦ (ok a, r.1, r.2)
      | err e ↦ (err (f e), r.1, r.2)
      | halt x ↦ (halt x, r.1, r.2)
    ]

-- `?`-free use of a result: the value on success, or nothing.
unfoldable pub ignore : {S E F A : Type 0} → M S E A → M S F (Unit {0})
ignore m s l =
    let r = m s l in
    elim r.0 [ ok a ↦ (ok tt, r.1, r.2) | err e ↦ (ok tt, r.1, r.2) | halt x ↦ (halt x, r.1, r.2) ]

abbrev pub get : {S E : Type 0} → M S E S
get s l = (ok s, s, l)

-- What has been done so far, on which the answers of the outside depend.
abbrev pub log : {S E : Type 0} → M S E Log
log s l = (ok l, s, l)

abbrev pub put : {S E : Type 0} → S → M S E (Unit {0})
put s _ l = (ok tt, s, l)

unfoldable pub modify : {S E : Type 0} → (S → S) → M S E (Unit {0})
modify f s l = (ok tt, f s, l)

unfoldable pub when : {S E : Type 0} → Bool → M S E (Unit {0}) → M S E (Unit {0})
when b m = if b then m else pure tt

-- An action that only leaves its mark in the log.
abbrev pub emit : {S E : Type 0} → Event → M S E (Unit {0})
emit e s l = (ok tt, s, e ∷ l)

-- Instant::now()
abbrev pub now : {S E : Type 0} → Env → M S E ℕ
now env s l = (ok (env.now l), s, Event.clock_read ∷ l)

-- Opens the combinators in a proof that runs code.
unfoldable pub combinators : Unit {0}
unfolding ◌>>=◌ ◌>>◌ attempt map_err ignore when modify
combinators = tt
