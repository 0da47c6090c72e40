-- ===== src/Text.antt =====
-- What the driver uses of the crates heapless and embedded-nal to build text: strings of a bounded
-- capacity, and IP addresses as text.
pub mod Fitting
use fibocom_cellular_rs.Prelude.{ℕ, ◌≤◌, ◌<◌, ◌≡◌, Option, none, some, length}
use fibocom_cellular_rs.Command.{Bytes}
use fibocom_cellular_rs.Env.{Env}
use fibocom_cellular_rs.Effect.{M, pure, panic}

pub record TextOps : Type 0 where
  -- `write!` of an IP address into an empty `String<256>`; `none` is its error.
  pub write_ip : Bytes → Option Bytes
  -- `str::parse::<IpAddr>`
  pub parse_ip : Bytes → Option Bytes

-- heapless: a text that fits is taken as it is, and one that does not fit panics.
pub record IsBounded (env : Env) : Type 0 where
  pub fits : (n : ℕ) (text : Bytes) → length text ≤ n → env.string_from n text ≡ some text
  pub overflows : (n : ℕ) (text : Bytes) → n < length text → env.string_from n text ≡ none

-- `String::<n>::from(text)`
unfoldable pub string : Env → {S E : Type 0} → ℕ → Bytes → M S E Bytes
string env n text = elim (env.string_from n text) [ none ↦ panic | some s ↦ pure s ]
