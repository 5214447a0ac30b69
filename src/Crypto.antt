-- ===== src/Crypto.antt =====
-- core/crypto: the algorithm tags, keys and signatures, and the dispatch of `verify_signature`.
-- The curve, lattice and hash code of ed25519-dalek, fips204 and blake3 are the fields of
-- `Primitives`; what the crate itself does around them is written out.
mod Defs
pub mod Framing
pub mod Hybrid
pub mod Verify
pub mod Tests
pub use Defs.{
  Algorithm, ed25519, ml_dsa87, hybrid, algorithm_beq, algorithm_eq, PublicKey, public_key_eq,
  Signature, signature_eq, CryptoError, unsupported_algorithm, algorithm_mismatch, malformed_key,
  malformed_signature, malformed_framing, signing, Primitives, Signer,
}
unfoldable pub use Defs.{ed25519_verify, mldsa_verify}
pub use Verify.{IsGenuine}
unfoldable pub use Verify.{verify_signature}
