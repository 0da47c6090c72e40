-- ===== src/Hex/InPlace.antt =====
-- The in-place loop of services/data/hex.rs against decoding into a new list.
use fibocom_cellular_rs.Prelude.{
  ℕ, zero, suc, ◌+◌, ◌*◌, ◌/◌, ◌%◌, ◌<◌, bit_or, ◌≡◌, refl, ap, ◌∙◌, Bool, true, ◌&&◌, inl, inr,
  List, [], ◌∷◌, ◌++◌, some, arith, ◌==◌, ==_iff, Bool-cases, if◌then◌else◌, length, length-append,
  get_elem?, set, take, sym,
}
use native.Mathlib.Nat.{add-zero}
use mathlib.Core.List.{append_assoc, append-nil}
use fibocom_cellular_rs.Hex.{
  odd_length, HexResult, ok, err, panic, ◌>>=◌, val, index, decode_at, decode_loop, from_hex,
}

-- Two digits to a byte, from the front; a lone last digit is the wrong length.
unfoldable pub decode : List ℕ → HexResult (List ℕ)
decode [] = ok []
decode (a ∷ []) = err odd_length
decode (a ∷ b ∷ rest) = do hi ← val a; lo ← val b; bytes ← decode rest; ok ((hi * 16 + lo) ∷ bytes)

pub val-lt : (c : ℕ) {d : ℕ} → val c ≡ ok d → d < 16
unfolding val
val-lt c h = ground arith

-- A table of all arguments below a bound.
every_digit : (ℕ → Bool) → ℕ → Bool
every_digit test zero = true
every_digit test (suc bound) = every_digit test bound && test bound

every_digit_at :
    (test : ℕ → Bool) (bound d : ℕ) → d < bound → every_digit test bound ≡ true → test d ≡ true
unfolding every_digit
every_digit_at test zero d lt table = ground arith
every_digit_at test (suc bound) d lt table = ground (arith, every_digit_at test bound d)

pack_table :
    every_digit (λ h. every_digit (λ l. bit_or (h * 16 % 256) l == (h * 16 + l)) 16) 16 ≡ true
unfolding every_digit
pack_table = refl

pub pack_digits : (h l : ℕ) → h < 16 → l < 16 → bit_or (h * 16 % 256) l ≡ h * 16 + l
pack_digits h l hh hl = (==_iff _ _).0 (
    every_digit_at (λ k. bit_or (h * 16 % 256) k == (h * 16 + k)) 16 l hl
      (every_digit_at (λ k. every_digit (λ j. bit_or (k * 16 % 256) j == (k * 16 + j)) 16) 16 h hh
        pack_table))

get_elem?-append {ℓ} :
    {A : Type ℓ} (xs : List A) (y : A) (ys : List A) (n : ℕ)
    → n ≡ length xs
    → get_elem? (xs ++ (y ∷ ys)) n ≡ some y
get_elem?-append [] y ys zero e = refl
get_elem?-append [] y ys (suc n) e = absurd (omega arith)
get_elem?-append (x ∷ xs) y ys zero e = absurd (omega arith)
get_elem?-append (x ∷ xs) y ys (suc n) e = get_elem?-append xs y ys n (omega arith)

set-append {ℓ} :
    {A : Type ℓ} (xs : List A) (y v : A) (ys : List A)
    → set (xs ++ (y ∷ ys)) (length xs) v ≡ xs ++ (v ∷ ys)
set-append [] y v ys = refl
set-append (x ∷ xs) y v ys = ap (◌∷◌ x) (set-append xs y v ys)

take-append {ℓ} : {A : Type ℓ} (xs ys : List A) → take (length xs) (xs ++ ys) ≡ xs
take-append [] ys = refl
take-append (x ∷ xs) ys = ap (◌∷◌ x) (take-append xs ys)

-- The cells behind the output: used up, as many as the output, and the pair that is read now.
uncons_window :
    (junk : List ℕ) (a b : ℕ) (rest : List ℕ)
    → (x : ℕ) × (junk' : List ℕ) × (junk ++ (a ∷ b ∷ rest) ≡ x ∷ (junk' ++ rest))
      × (length junk' ≡ suc (length junk))
uncons_window [] a b rest = (a, b ∷ [], refl, refl)
uncons_window (j ∷ js) a b rest = (
  j,
  js ++ (a ∷ b ∷ []),
  ap (◌∷◌ j) (sym (append_assoc js (a ∷ b ∷ []) rest)),
  omega (arith, length-append js (a ∷ b ∷ [])),
)

pub bind_cong {ℓ κ} :
    {A : Type ℓ} {B : Type κ} (m : HexResult A) {f g : A → HexResult B}
    → ((a : A) → m ≡ ok a → f a ≡ g a)
    → (m >>= f) ≡ (m >>= g)
bind_cong (ok a) h = h a refl
bind_cong (err e) h = refl
bind_cong panic h = refl

pub bind_assoc {ℓ κ μ} :
    {A : Type ℓ} {B : Type κ} {C : Type μ} (m : HexResult A) (f : A → HexResult B)
    (g : B → HexResult C)
    → ((m >>= f) >>= g) ≡ (m >>= λ a. f a >>= g)
bind_assoc (ok a) f g = refl
bind_assoc (err e) f g = refl
bind_assoc panic f g = refl

index-some : (buf : List ℕ) (i : ℕ) {c : ℕ} → get_elem? buf i ≡ some c → index buf i ≡ ok c
unfolding index
index-some buf i h = ground arith

decode_at-cells :
    (buf : List ℕ) (i a b : ℕ)
    → get_elem? buf (i * 2) ≡ some a
    → get_elem? buf (i * 2 + 1) ≡ some b
    → decode_at buf i ≡ (val a >>= λ hi. val b >>= λ lo. ok (set buf i (hi * 16 + lo)))
unfolding decode_at
decode_at-cells buf i a b ha hb =
    rw (index-some buf (i * 2) ha, index-some buf (i * 2 + 1) hb)
      (bind_cong (val a)
        λ hi h. bind_cong (val b) λ lo l. rw (pack_digits hi lo (val-lt a h) (val-lt b l)))

-- One round: the pair behind `junk` is decoded onto the first used-up cell.
decode_at-round :
    (out junk rest : List ℕ) (a b : ℕ)
    → length junk ≡ length out
    → (junk' : List ℕ) × (length junk' ≡ suc (length out))
      × (decode_at (out ++ (junk ++ (a ∷ b ∷ rest))) (length out) ≡ (
          val a >>= λ hi. val b >>= λ lo. ok ((out ++ ((hi * 16 + lo) ∷ [])) ++ (junk' ++ rest))))
decode_at-round out junk rest a b e =
    let (x, junk', window, more) = uncons_window junk a b rest in
    (
      junk',
      omega arith,
      decode_at-cells _ (length out) a b
            (rw (← append_assoc out junk (a ∷ b ∷ rest)) (
              get_elem?-append (out ++ junk) a (b ∷ rest) _
                (omega (arith, length-append out junk))))
            (rw
              (
                ← append_assoc out junk (a ∷ b ∷ rest),
                ← append_assoc (out ++ junk) (a ∷ []) (b ∷ rest),
              )
              (get_elem?-append ((out ++ junk) ++ (a ∷ [])) b rest _
                (omega (arith, length-append out junk, length-append (out ++ junk) (a ∷ [])))))
          ∙ bind_cong (val a) λ hi h. bind_cong (val b) λ lo l. ap ok (
              rw window (
                set-append out x (hi * 16 + lo) (junk' ++ rest)
                ∙ sym (append_assoc out ((hi * 16 + lo) ∷ []) (junk' ++ rest)))),
    )

-- All rounds, from any point on.
decode_loop-decode :
    (n i t : ℕ) (out junk rest : List ℕ)
    → i ≡ length out
    → t ≡ length out + n
    → length junk ≡ length out
    → length rest ≡ n * 2
    → (decode_loop n i (out ++ (junk ++ rest)) >>= λ buf. ok (take t buf))
      ≡ (decode rest >>= λ bytes. ok (out ++ bytes))
unfolding decode_loop decode
decode_loop-decode zero i t out junk [] hi ht e h =
    rw (ht ∙ add-zero (length out)) (ap ok (take-append out (junk ++ []) ∙ sym (append-nil out)))
decode_loop-decode zero i t out junk (a ∷ rest) hi ht e h = absurd (omega arith)
decode_loop-decode (suc n) i t out junk [] hi ht e h = absurd (omega arith)
decode_loop-decode (suc n) i t out junk (a ∷ []) hi ht e h = absurd (omega arith)
decode_loop-decode (suc n) i t out junk (a ∷ b ∷ rest) hi ht e h =
    let (junk', more, round) = decode_at-round out junk rest a b e in
    rw (hi, round)
      (simp bind_assoc (
        bind_cong (val a) λ x hx. bind_cong (val b) λ y hy.
          let out' = out ++ ((x * 16 + y) ∷ []) in
          let grown : length out' ≡ length out + 1 =
            omega (arith, length-append out ((x * 16 + y) ∷ [])) in
          decode_loop-decode n (length out + 1) t out' junk' rest (sym grown) (omega arith)
            (omega arith) (omega arith)
          ∙ bind_cong (decode rest) λ bytes hb. ap ok (append_assoc out ((x * 16 + y) ∷ []) bytes)))

bind_ok {ℓ} : {A : Type ℓ} (m : HexResult A) → (m >>= λ a. ok a) ≡ m
bind_ok (ok a) = refl
bind_ok (err e) = refl
bind_ok panic = refl

half_double : (n : ℕ) → n % 2 ≡ 0 → n ≡ n / 2 * 2
half_double n h = omega arith

pub from_hex-odd : (hex : List ℕ) → length hex % 2 ≡ 1 → from_hex hex ≡ err odd_length
unfolding from_hex
from_hex-odd hex h = rw h

pub from_hex-even : (hex : List ℕ) → length hex % 2 ≡ 0 → from_hex hex ≡ decode hex
unfolding from_hex
from_hex-even hex h = rw h (
    decode_loop-decode (length hex / 2) 0 (length hex / 2) [] [] hex refl (omega arith) refl
      (half_double _ h)
    ∙ bind_ok (decode hex))

-- On a text of even length `from_hex` returns what decoding pair by pair into a new list returns:
-- the cells that it overwrites are never read again, and no index is out of bounds. On a text of
-- odd length it returns `odd_length`, whatever the characters are.
pub from_hex-decode :
    (hex : List ℕ) → from_hex hex ≡ (if length hex % 2 == 0 then decode hex else err odd_length)
from_hex-decode hex = elim (Bool-cases (length hex % 2 == 0)) [
  | inl even ↦ rw even (from_hex-even hex ((==_iff _ _).0 even))
  | inr odd ↦ rw odd (from_hex-odd hex (ground arith))
]
