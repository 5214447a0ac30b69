-- ===== src/Crypto/Framing.antt =====
-- core/crypto/src/hybrid.rs: the length-prefixed framing of the two components of a hybrid.
pub mod RoundTrip
use index_one.Base.{
  ℕ, ◌+◌, ◌*◌, ◌/◌, ◌%◌, [], ◌∷◌, ◌++◌, Bytes, length, take, drop, ◌==◌, nat_eq, ltb, Result, ok,
  err, if◌then◌else◌, guard, ◌>>=◌, ◌>>◌, list_eq, option_eq,
}
use index_one.Crypto.Defs.{
  Algorithm, ed25519, ml_dsa87, hybrid, CryptoError, unsupported_algorithm, malformed_framing,
}

-- One decoded component: its algorithm and its payload.
abbrev pub Component : Type 0
Component = Algorithm × Bytes

unfoldable pub algorithm_tag : Algorithm → Result CryptoError ℕ
algorithm_tag ed25519 = ok 0
algorithm_tag ml_dsa87 = ok 1
algorithm_tag hybrid = err (unsupported_algorithm hybrid)

unfoldable pub tag_algorithm : ℕ → Result CryptoError Algorithm
tag_algorithm tag =
    if tag == 0
    then ok ed25519
    else if tag == 1
    then ok ml_dsa87
    else err (malformed_framing "unknown component algorithm tag")

-- `u32::to_be_bytes` and `u32::from_be_bytes`
abbrev pub u32_be : ℕ → Bytes
u32_be n = n / 16777216 % 256 ∷ n / 65536 % 256 ∷ n / 256 % 256 ∷ n % 256 ∷ []

abbrev pub u32_from_be : ℕ → ℕ → ℕ → ℕ → ℕ
u32_from_be a b c d = a * 16777216 + b * 65536 + c * 256 + d

-- `out` is the vector that the function extends.
unfoldable pub encode_component : Bytes → Algorithm → Bytes → Result CryptoError Bytes
encode_component out algorithm payload = do
  tag ← algorithm_tag algorithm
  guard (ltb (length payload) 4294967296) (malformed_framing "component too large")
  ok (out ++ (tag ∷ u32_be (length payload) ++ payload))

unfoldable pub frame_two : Algorithm → Bytes → Algorithm → Bytes → Result CryptoError Bytes
frame_two alg0 payload0 alg1 payload1 = do
  out ← encode_component [] alg0 payload0
  encode_component out alg1 payload1

-- The check `end > input.len()` is made on the bytes behind the header. The `checked_add` of 5 and
-- a 32-bit length cannot overflow a 64-bit `usize`.
unfoldable pub read_component : Bytes → Result CryptoError (Component × Bytes)
read_component (tag ∷ a ∷ b ∷ c ∷ d ∷ rest) = do
  algorithm ← tag_algorithm tag
  let len = u32_from_be a b c d
  if ltb (length rest) len
      then err (malformed_framing "truncated component payload")
      else ok ((algorithm, take len rest), drop len rest)
read_component _ = err (malformed_framing "truncated component header")

-- `if !rest1.is_empty()`
abbrev no_rest : Component × Component → Bytes → Result CryptoError (Component × Component)
no_rest comps [] = ok comps
no_rest comps (b ∷ bs) = err (malformed_framing "trailing bytes after two components")

unfoldable pub decode_two : Bytes → Result CryptoError (Component × Component)
decode_two input = read_component input >>= λ first.
    read_component first.1 >>= λ second. no_rest (first.0, second.0) second.1
