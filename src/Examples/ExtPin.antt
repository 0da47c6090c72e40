-- ===== src/Examples/ExtPin.antt =====
-- examples/common_lib/src/gpio.rs: a pin of the system under the names of embedded-hal.
use fibocom_cellular_rs.Prelude.{
  ℕ, ◌≡◌, Bool, true, false, not, ◌⊎◌, inl, inr, ◌==◌, if◌then◌else◌, arith,
}

-- What the crate sysfs_gpio offers on a pin of state `P`, with errors `E`.
pub record SysfsPin (P E : Type 0) : Type 0 where
  pub get_active_low : P → E ⊎ Bool
  pub get_value : P → E ⊎ ℕ
  pub set_value : ℕ → P → (E ⊎ Unit {0}) × P

module _ {P E : Type 0} (ops : SysfsPin P E) where
  -- `if self.0.get_active_low()? { self.0.set_value(a) } else { self.0.set_value(b) }`
  unfoldable pub set_by_polarity : (low high : ℕ) → P → (E ⊎ Unit {0}) × P
  set_by_polarity low high pin = elim (ops.get_active_low pin) [
    | inl e ↦ (inl e, pin)
    | inr active_low ↦ if active_low then ops.set_value low pin else ops.set_value high pin
  ]

  unfoldable pub set_low : P → (E ⊎ Unit {0}) × P
  unfolding set_by_polarity
  set_low pin = set_by_polarity 1 0 pin

  unfoldable pub set_high : P → (E ⊎ Unit {0}) × P
  unfolding set_by_polarity
  set_high pin = set_by_polarity 0 1 pin

  unfoldable pub is_high : P → E ⊎ Bool
  is_high pin = elim (ops.get_active_low pin) [
    | inl e ↦ inl e
    | inr active_low ↦ elim (ops.get_value pin) [
      | inl e ↦ inl e
      | inr val ↦ inr (if active_low then val == 0 else not (val == 0))
    ]
  ]

  unfoldable pub is_low : P → E ⊎ Bool
  is_low pin = elim (is_high pin) [ inl e ↦ inl e | inr val ↦ inr (not val) ]

-- A pin keeps what it is set to, and its polarity.
pub record IsKept {P E : Type 0} (ops : SysfsPin P E) : Type 0 where
  pub value :
      (v : ℕ) (pin : P)
      → (ops.set_value v pin).0 ≡ inr tt
      → ops.get_value (ops.set_value v pin).1 ≡ inr v
  pub polarity :
      (v : ℕ) (pin : P) → ops.get_active_low (ops.set_value v pin).1 ≡ ops.get_active_low pin

-- On a pin that keeps its value and its polarity, what was set without an error is read back, under
-- either polarity: after `set_high` the pin is high and not low, and after `set_low` low and not
-- high.
pub set-is_high :
    {P E : Type 0} (ops : SysfsPin P E)
    → IsKept ops
    → (pin : P)
    → ((set_high ops pin).0 ≡ inr tt
        → (is_high ops (set_high ops pin).1 ≡ inr true)
          × (is_low ops (set_high ops pin).1 ≡ inr false))
      × ((set_low ops pin).0 ≡ inr tt
          → (is_high ops (set_low ops pin).1 ≡ inr false)
            × (is_low ops (set_low ops pin).1 ≡ inr true))
unfolding set_high set_low set_by_polarity is_high is_low
set-is_high ops kept pin =
    let value = (λ (v : ℕ). kept.value v pin) in
    let polarity = (λ (v : ℕ). kept.polarity v pin) in
    (λ h. (grind arith, grind arith), λ h. (grind arith, grind arith))
