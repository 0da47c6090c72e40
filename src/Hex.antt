-- ===== src/Hex.antt =====
-- ublox-cellular/src/services/data/hex.rs: decoding of the hexadecimal text in which the module
-- hands over socket data. A byte is a number; `u8` subtraction stands under range tests.
pub mod InPlace
pub mod RoundTrip
mod Tests
use fibocom_cellular_rs.Prelude.{
  ℕ, zero, suc, ◌+◌, ◌-◌, ◌*◌, ◌/◌, ◌%◌, bit_or, ◌&&◌, List, none, some, leb, ◌==◌, if◌then◌else◌,
  length, get_elem?, set, take,
}

pub data FromHexError : Type 0 where
  invalid_hex_character odd_length : FromHexError

pub data HexResult {ℓ} (A : Type ℓ) : Type ℓ where
  ok : A → HexResult A
  err : FromHexError → HexResult A
  -- An index out of bounds: a panic.
  panic : HexResult A

infixl 5 ◌>>=◌
abbrev pub ◌>>=◌ {ℓ κ} : {A : Type ℓ} {B : Type κ} → HexResult A → (A → HexResult B) → HexResult B
ok a >>= f = f a
err e >>= f = err e
panic >>= f = panic

-- The value of one digit.
unfoldable pub val : ℕ → HexResult ℕ
val c =
    if leb b'A' c && leb c b'F'
    then ok (c - b'A' + 10)
    else if leb b'a' c && leb c b'f'
    then ok (c - b'a' + 10)
    else if leb b'0' c && leb c b'9'
    then ok (c - b'0')
    else err invalid_hex_character

-- `hex[i]`.
unfoldable pub index : List ℕ → ℕ → HexResult ℕ
index hex i = elim (get_elem? hex i) [ none ↦ panic | some c ↦ ok c ]

-- One round of the loop. `<<` binds tighter than `|`, and a `u8` shift drops the upper bits.
unfoldable pub decode_at : List ℕ → ℕ → HexResult (List ℕ)
decode_at hex i = do
  hi ← val (← index hex (i * 2))
  lo ← val (← index hex (i * 2 + 1))
  ok (set hex i (bit_or (hi * 16 % 256) lo))

-- The rounds from `i` on, `n` of them.
unfoldable pub decode_loop : ℕ → ℕ → List ℕ → HexResult (List ℕ)
decode_loop zero i hex = ok hex
decode_loop (suc n) i hex = do hex' ← decode_at hex i; decode_loop n (i + 1) hex'

-- In place: the buffer's first half is overwritten and returned.
unfoldable pub from_hex : List ℕ → HexResult (List ℕ)
from_hex hex =
    if length hex % 2 == 0
    then (do let len = length hex / 2; hex' ← decode_loop len 0 hex; ok (take len hex'))
    else err odd_length
