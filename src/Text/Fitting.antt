-- ===== src/Text/Fitting.antt =====
-- Strings of a bounded capacity: what becomes of a text that fits, and of one that does not.
use fibocom_cellular_rs.Prelude.{ℕ, ◌≤◌, ◌<◌, ◌≡◌, Option, none, some, length, arith}
use fibocom_cellular_rs.Command.{Bytes}
use fibocom_cellular_rs.Env.{Env, Log}
use fibocom_cellular_rs.Effect.{Fault, ok, halt}
use fibocom_cellular_rs.Effect.Laws.{Keeps, Keeps-option, Keeps-panic, Keeps-pure}
use fibocom_cellular_rs.Effect.Ends.{Ends}
use fibocom_cellular_rs.Text.{IsBounded, string}

-- A text, if there is one, fits.
unfoldable pub FitsIn : ℕ → Option Bytes → Type 0
FitsIn n none = Unit {0}
FitsIn n (some text) = length text ≤ n

module _ (env : Env) {S E : Type 0} where
  pub string-fits :
      (n : ℕ) (text : Bytes) (s : S) (l : Log)
      → IsBounded env
      → length text ≤ n
      → string env {E = E} n text s l ≡ (ok text, s, l)
  unfolding string
  string-fits n text s l b h = let f = b.fits n text h in ground arith

  pub string-overflows :
      (n : ℕ) (text : Bytes) (s : S) (l : Log)
      → IsBounded env
      → n < length text
      → string env {E = E} n text s l ≡ (halt Fault.panicked, s, l)
  unfolding string
  string-overflows n text s l b h = let f = b.overflows n text h in ground arith

  pub string-Ends :
      (n : ℕ) (text : Bytes)
      → IsBounded env
      → length text ≤ n
      → Ends {S = S} {E = E} (string env n text)
  string-Ends n text b h = record {
    ends = λ s l x e. let f = string-fits n text s l b h in ground arith;
  }

  pub string-Keeps :
      {P : S → Log → Type 0} (n : ℕ) (text : Bytes) → Keeps {E = E} P (string env n text)
  unfolding string
  string-Keeps n text = Keeps-option Keeps-panic (λ s. Keeps-pure s) (env.string_from n text)
