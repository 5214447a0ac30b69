-- ===== src/Crypto/Defs.antt =====
-- core/crypto/src/lib.rs: the tags and the tagged bytes; ed25519.rs and mldsa.rs: the two raw
-- verification arms, with their length checks.
use index_one.Base.{
  ◌≡◌, ◌↔◌, Bool, true, false, ◌&&◌, String, arith, Bytes, length, PartialEq, ◌==◌, list_eq, nat_eq,
  ==_iff, Result, ok, guard, ◌>>◌, option_eq,
}

pub data Algorithm : Type 0 where
  ed25519 ml_dsa87 hybrid : Algorithm

abbrev pub algorithm_beq : Algorithm → Algorithm → Bool
algorithm_beq ed25519 ed25519 = true
algorithm_beq ml_dsa87 ml_dsa87 = true
algorithm_beq hybrid hybrid = true
algorithm_beq _ _ = false

pub algorithm_beq_iff : (a b : Algorithm) → (algorithm_beq a b ≡ true) ↔ (a ≡ b)
algorithm_beq_iff a b = ground arith

instance abbrev pub algorithm_eq : PartialEq Algorithm
algorithm_eq = record { eq = algorithm_beq; eq_iff = algorithm_beq_iff }

pub record PublicKey : Type 0 where
  pub algorithm : Algorithm
  pub bytes : Bytes

pub record Signature : Type 0 where
  pub algorithm : Algorithm
  pub bytes : Bytes

abbrev pub public_key_beq : PublicKey → PublicKey → Bool
public_key_beq a b = a.algorithm == b.algorithm && a.bytes == b.bytes

pub public_key_beq_iff : (a b : PublicKey) → (public_key_beq a b ≡ true) ↔ (a ≡ b)
public_key_beq_iff a b = ground (arith, ==_iff a.algorithm b.algorithm, ==_iff a.bytes b.bytes)

instance abbrev pub public_key_eq : PartialEq PublicKey
public_key_eq = record { eq = public_key_beq; eq_iff = public_key_beq_iff }

abbrev pub signature_beq : Signature → Signature → Bool
signature_beq a b = a.algorithm == b.algorithm && a.bytes == b.bytes

pub signature_beq_iff : (a b : Signature) → (signature_beq a b ≡ true) ↔ (a ≡ b)
signature_beq_iff a b = ground (arith, ==_iff a.algorithm b.algorithm, ==_iff a.bytes b.bytes)

instance abbrev pub signature_eq : PartialEq Signature
signature_eq = record { eq = signature_beq; eq_iff = signature_beq_iff }

pub data CryptoError : Type 0 where
  unsupported_algorithm : Algorithm → CryptoError
  algorithm_mismatch : Algorithm → Algorithm → CryptoError
  malformed_key malformed_signature : Algorithm → CryptoError
  malformed_framing signing : String → CryptoError

-- Code that is not the repository's: `blake3::hash`, and for each scheme whether the bytes of a key
-- parse and whether a signature of the right length holds (key, payload, signature).
pub record Primitives : Type 0 where
  pub blake3 : Bytes → Bytes
  pub dalek_key : Bytes → Bool
  pub dalek_verify : Bytes → Bytes → Bytes → Bool
  pub fips_key : Bytes → Bool
  pub fips_verify : Bytes → Bytes → Bytes → Bool

-- The trait `Signer`.
pub record Signer : Type 0 where
  pub algorithm : Algorithm
  pub public_key : PublicKey
  pub sign : Bytes → Result CryptoError Signature

module _ ⦃prim : Primitives⦄ where
  -- PUBLIC_KEY_LENGTH = 32, SIGNATURE_LENGTH = 64
  unfoldable pub ed25519_verify : Bytes → Bytes → Bytes → Result CryptoError Bool
  ed25519_verify payload sig_bytes pubkey_bytes = do
    guard (length pubkey_bytes == 32) (malformed_key ed25519)
    guard (prim.dalek_key pubkey_bytes) (malformed_key ed25519)
    guard (length sig_bytes == 64) (malformed_signature ed25519)
    ok (prim.dalek_verify pubkey_bytes payload sig_bytes)

  -- PK_LEN = 2592, SIG_LEN = 4627
  unfoldable pub mldsa_verify : Bytes → Bytes → Bytes → Result CryptoError Bool
  mldsa_verify payload sig_bytes pubkey_bytes = do
    guard (length pubkey_bytes == 2592) (malformed_key ml_dsa87)
    guard (prim.fips_key pubkey_bytes) (malformed_key ml_dsa87)
    guard (length sig_bytes == 4627) (malformed_signature ml_dsa87)
    ok (prim.fips_verify pubkey_bytes payload sig_bytes)
