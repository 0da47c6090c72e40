-- ===== src/Hex/Tests.antt =====
-- Runs of the decoder of services/data/hex.rs, and its theorems at concrete inputs.
use fibocom_cellular_rs.Prelude.{ℕ, ◌≡◌, refl, List, [], ◌∷◌, arith, false}
use fibocom_cellular_rs.Hex.{
  invalid_hex_character, odd_length, ok, err, val, index, decode_at, decode_loop, from_hex,
}
use fibocom_cellular_rs.Hex.InPlace.{decode, from_hex-decode}
use fibocom_cellular_rs.Hex.RoundTrip.{encode, Decodes, from_hex-encode, from_hex_cases}

-- "4a2F"
abbrev mixed_case : List ℕ
mixed_case = b'4' ∷ b'a' ∷ b'2' ∷ b'F' ∷ []

from_hex_mixed : from_hex mixed_case ≡ ok (0x4a ∷ 0x2f ∷ [])
unfolding from_hex decode_loop decode_at index val
from_hex_mixed = refl

from_hex_lone : from_hex (b'z' ∷ []) ≡ err odd_length
unfolding from_hex
from_hex_lone = refl

from_hex_letter : from_hex (b'0' ∷ b'g' ∷ []) ≡ err invalid_hex_character
unfolding from_hex decode_loop decode_at index val
from_hex_letter = refl

from_hex-decode_example : from_hex mixed_case ≡ ok (0x4a ∷ 0x2f ∷ [])
unfolding decode val
from_hex-decode_example = from_hex-decode mixed_case

from_hex-encode_example : from_hex (encode false (0x4a ∷ 0x2f ∷ [])) ≡ ok (0x4a ∷ 0x2f ∷ [])
from_hex-encode_example = from_hex-encode false (0x4a ∷ 0x2f ∷ []) (omega arith)

from_hex_cases_example : Decodes mixed_case (from_hex mixed_case)
from_hex_cases_example = from_hex_cases mixed_case refl
