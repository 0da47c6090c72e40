-- ===== src/Hex/RoundTrip.antt =====
-- What `from_hex` accepts, what it returns, and that it reads back encoded bytes.
use fibocom_cellular_rs.Prelude.{
  ℕ, ◌+◌, ◌-◌, ◌*◌, ◌/◌, ◌%◌, ◌<◌, ◌≤◌, ◌≡◌, refl, Bool, ◌⊎◌, inl, inr, ltb, ◌∙◌, List, [], ◌∷◌,
  arith, if◌then◌else◌, length, All, ap,
}
use fibocom_cellular_rs.Hex.{invalid_hex_character, HexResult, ok, err, panic, val, from_hex}
use fibocom_cellular_rs.Hex.InPlace.{decode, from_hex-even, val-lt}

-- `0...9`, `a...f` or `A...F`.
abbrev pub IsHexDigit : ℕ → Type 0
IsHexDigit c = ((b'0' ≤ c) × (c ≤ b'9')) ⊎ ((b'a' ≤ c) × (c ≤ b'f')) ⊎ ((b'A' ≤ c) × (c ≤ b'F'))

abbrev pub digit : Bool → ℕ → ℕ
digit upper d = if ltb d 10 then d + b'0' else if upper then d - 10 + b'A' else d - 10 + b'a'

-- The text of some bytes, in upper or lower case.
pub encode : Bool → List ℕ → List ℕ
encode upper [] = []
encode upper (x ∷ xs) = digit upper (x / 16) ∷ digit upper (x % 16) ∷ encode upper xs

val-digit : (upper : Bool) (d : ℕ) → d < 16 → val (digit upper d) ≡ ok d
unfolding val
val-digit upper d h = ground arith

length-encode : (upper : Bool) (xs : List ℕ) → length (encode upper xs) ≡ length xs * 2
unfolding encode
length-encode upper [] = refl
length-encode upper (x ∷ xs) = omega (arith, length-encode upper xs)

decode-encode :
    (upper : Bool) (xs : List ℕ) → All (λ x. x < 256) xs → decode (encode upper xs) ≡ ok xs
unfolding encode decode
decode-encode upper [] h = refl
decode-encode upper (x ∷ xs) (hx, hxs) =
    rw
      (
        val-digit upper (x / 16) (omega arith),
        val-digit upper (x % 16) (omega arith),
        decode-encode upper xs hxs,
      )
      (ap (λ (y : ℕ). ok (y ∷ xs)) (omega arith))

-- `from_hex` reads back any bytes from their hexadecimal text, in upper and in lower case.
pub from_hex-encode :
    (upper : Bool) (xs : List ℕ) → All (λ x. x < 256) xs → from_hex (encode upper xs) ≡ ok xs
from_hex-encode upper xs h =
    from_hex-even _ (omega (arith, length-encode upper xs)) ∙ decode-encode upper xs h

val_cases :
    (c : ℕ)
    → (IsHexDigit c × ((d : ℕ) × (val c ≡ ok d)))
      ⊎ ((¬ IsHexDigit c) × (val c ≡ err invalid_hex_character))
unfolding val
val_cases c = go (val c) refl
  where
    go :
        (r : HexResult ℕ)
        → val c ≡ r
        → (IsHexDigit c × ((d : ℕ) × (val c ≡ ok d)))
          ⊎ ((¬ IsHexDigit c) × (val c ≡ err invalid_hex_character))
    go (ok d) e = inl (ground arith, (d, e))
    go (err x) e = inr ((λ h. ground arith), ground arith)
    go panic e = absurd (ground arith)

abbrev pub Decodes : List ℕ → HexResult (List ℕ) → Type 0
Decodes hex r =
    (All IsHexDigit hex
      × ((bytes : List ℕ) × (r ≡ ok bytes)
          × (length hex ≡ length bytes * 2)
          × All (λ x. x < 256) bytes))
    ⊎ ((¬ All IsHexDigit hex) × (r ≡ err invalid_hex_character))

decode_cases : (hex : List ℕ) → length hex % 2 ≡ 0 → Decodes hex (decode hex)
unfolding decode
decode_cases [] h = inl (tt, ([], refl, refl, tt))
decode_cases (a ∷ []) h = absurd (omega arith)
decode_cases (a ∷ b ∷ rest) h = elim (val_cases a) [
  | inr (no_digit, e) ↦ inr ((λ all. no_digit all.0), rw e)
  | inl (digit_a, (hi, ea)) ↦ elim (val_cases b) [
    | inr (no_digit, e) ↦ inr ((λ all. no_digit all.1.0), rw (ea, e))
    | inl (digit_b, (lo, eb)) ↦ elim (decode_cases rest (omega arith)) [
      | inr (bad, e) ↦ inr ((λ all. bad all.1.1), rw (ea, eb, e))
      | inl (digits, (bytes, e, len, small)) ↦ inl (
        (digit_a, (digit_b, digits)),
        (
          (hi * 16 + lo) ∷ bytes,
          rw (ea, eb, e),
          omega arith,
          (omega (arith, val-lt a ea, val-lt b eb), small),
        ),
      )
    ]
  ]
]

-- On a text of even length `from_hex` succeeds exactly if every character is a hexadecimal digit;
-- it then returns half as many values, each a byte, and otherwise `invalid_hex_character`.
pub from_hex_cases : (hex : List ℕ) → length hex % 2 ≡ 0 → Decodes hex (from_hex hex)
from_hex_cases hex h = rw (from_hex-even hex h) (decode_cases hex h)
