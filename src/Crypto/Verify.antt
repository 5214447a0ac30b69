-- ===== src/Crypto/Verify.antt =====
-- core/crypto/src/lib.rs: `verify_signature`, which dispatches on the algorithm tag.
pub mod Components
use index_one.Base.{
  ℕ, zero, suc, ◌≡◌, Bool, true, Bytes, ◌==◌, Result, ok, err, if◌then◌else◌, nat_eq, list_eq,
  option_eq,
}
use index_one.Crypto.Defs.{
  Algorithm, ed25519, ml_dsa87, hybrid, algorithm_eq, PublicKey, Signature, CryptoError,
  unsupported_algorithm, algorithm_mismatch, Primitives, Signer, ed25519_verify, mldsa_verify,
}
use index_one.Crypto.Hybrid

module _ ⦃prim : Primitives⦄ where
  -- The call from a hybrid to its components goes one level down; `n` bounds the levels.
  unfoldable pub verify_levels : ℕ → Bytes → Signature → PublicKey → Result CryptoError Bool
  verify_levels zero payload signature public_key = err (unsupported_algorithm hybrid)
  verify_levels (suc n) payload signature public_key =
      let components = Hybrid.verify (verify_levels n) payload signature.bytes public_key.bytes in
      if signature.algorithm == public_key.algorithm
      then elim signature.algorithm [
        | ed25519 ↦ ed25519_verify payload signature.bytes public_key.bytes
        | ml_dsa87 ↦ mldsa_verify payload signature.bytes public_key.bytes
        | hybrid ↦ components
      ]
      else err (algorithm_mismatch signature.algorithm public_key.algorithm)

  -- Two levels are enough, since the framing has no tag for a hybrid component.
  unfoldable pub verify_signature : Bytes → Signature → PublicKey → Result CryptoError Bool
  verify_signature = verify_levels 2

  -- What a signer promises: the signatures that it makes hold under its own key.
  abbrev pub IsGenuine : Signer → Type 0
  IsGenuine s =
      (payload : Bytes) (signature : Signature)
      → s.sign payload ≡ ok signature
      → verify_signature payload signature s.public_key ≡ ok true
