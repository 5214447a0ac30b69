-- ===== src/Sample/Hex.antt =====
-- A codec of hexadecimal texts: two digits a byte, in either case.
use mathlib.Core.Option.{some-injective}
use index_one.Base.{
  ℕ, ◌+◌, ◌-◌, ◌*◌, ◌/◌, ◌%◌, ◌<◌, ◌≡◌, refl, ap, subst, ◌&&◌, Option, none, some, [], ◌∷◌, arith,
  leb, if◌then◌else◌, All, Bytes, Text,
}
use index_one.RevocationService.Requests.{HexCodec, hex_digit, to_string}

abbrev digit : ℕ → Option ℕ
digit c =
    if leb 48 c && leb c 57
    then some (c - 48)
    else if leb 97 c && leb c 102
    then some (c - 87)
    else if leb 65 c && leb c 70
    then some (c - 55)
    else none

abbrev pair : Option ℕ → Option ℕ → Option Bytes → Option Bytes
pair (some high) (some low) (some bytes) = some ((high * 16 + low) ∷ bytes)
pair (some high) (some low) none = none
pair (some high) none rest = none
pair none low rest = none

abbrev decode : Text → Option Bytes
decode [] = some []
decode (x ∷ []) = none
decode (x ∷ y ∷ s) = let rest = decode s in pair (digit x) (digit y) rest

instance abbrev pub sample_hex : HexCodec
sample_hex = record { decode = decode; encode = to_string }

digit_bound : (c n : ℕ) → digit c ≡ some n → n < 16
digit_bound c n h = ground (arith, h)

pair-bytes :
    (a b : Option ℕ) (rest : Option Bytes) (bytes : Bytes)
    → ((n : ℕ) → a ≡ some n → n < 16)
    → ((n : ℕ) → b ≡ some n → n < 16)
    → ((more : Bytes) → rest ≡ some more → All (λ x. x < 256) more)
    → pair a b rest ≡ some bytes
    → All (λ x. x < 256) bytes
pair-bytes none b rest bytes p q r h = absurd (ground (arith, h))
pair-bytes (some m) none rest bytes p q r h = absurd (ground (arith, h))
pair-bytes (some m) (some n) none bytes p q r h = absurd (ground (arith, h))
pair-bytes (some m) (some n) (some more) bytes p q r h =
    subst (All (λ x. x < 256)) (some-injective _ _ h)
      (omega (arith, p m refl, q n refl), r more refl)

pub decode-bytes : (s : Text) (bytes : Bytes) → decode s ≡ some bytes → All (λ x. x < 256) bytes
decode-bytes [] bytes h = subst (All (λ x. x < 256)) (some-injective _ _ h) tt
decode-bytes (x ∷ []) bytes h = absurd (ground (arith, h))
decode-bytes (x ∷ y ∷ s) bytes h =
    pair-bytes (digit x) (digit y) (decode s) bytes (digit_bound x) (digit_bound y) (decode-bytes s)
      h

digit-hex_digit : (n : ℕ) → n < 16 → digit (hex_digit n) ≡ some n
digit-hex_digit n h = ground (arith, h)

pub decode-to_string :
    (bytes : Bytes) → All (λ b. b < 256) bytes → decode (to_string bytes) ≡ some bytes
unfolding to_string
decode-to_string [] g = refl
decode-to_string (b ∷ bytes) (g, gs) =
    rw
      (
        digit-hex_digit (b / 16) (omega (arith, g)),
        digit-hex_digit (b % 16) (omega arith),
        decode-to_string bytes gs,
      )
      (ap (λ x. some (x ∷ bytes)) (omega arith))
