-- ===== src/Attestation/Completion.antt =====
-- core/attestation/src/lib.rs: one completion attestation, its making and its check.
use index_one.Base.{
  Bytes, Result, ok, ◌>>=◌, ◌>>◌, guard, map_err, not, ◌==◌, nat_eq, list_eq, option_eq,
}
use index_one.Crypto.{
  PublicKey, public_key_eq, Signature, CryptoError, Primitives, Signer, verify_signature,
}
use index_one.Chain.{Principal}
use index_one.Witness.{Digest, InclusionProof}

pub data AttesterRole : Type 0 where
  counter_signed third_party : AttesterRole

pub record CompletionAttestation : Type 0 where
  pub chain_digest : Digest
  pub requested_action_digest : Digest
  pub outcome_digest : Digest
  pub witnessed_root : Digest
  pub inclusion : InclusionProof
  pub attester : Principal
  pub attester_key : PublicKey
  pub role : AttesterRole
  pub signature : Signature

-- The text of a `Crypto` error is left as the error that it prints.
pub data AttestationError : Type 0 where
  not_independent signature_invalid : AttestationError
  crypto : CryptoError → AttestationError

-- Code that is not the repository's: `serde_jcs::to_vec` of the tuple of all fields but the
-- signature.
pub record AttestationEncoding : Type 0 where
  pub signing_payload :
      Digest
      → Digest
      → Digest
      → Digest
      → InclusionProof
      → Principal
      → PublicKey
      → AttesterRole
      → Bytes

module _ ⦃prim : Primitives⦄ ⦃enc : AttestationEncoding⦄ where
  abbrev pub payload_of : CompletionAttestation → Bytes
  payload_of a =
      enc.signing_payload a.chain_digest a.requested_action_digest a.outcome_digest a.witnessed_root
        a.inclusion a.attester a.attester_key a.role

  -- The `expect` on the signature is an error here.
  unfoldable pub attest_as :
      AttesterRole
      → Signer
      → Principal
      → Digest
      → Digest
      → Digest
      → Digest
      → InclusionProof
      → Result CryptoError CompletionAttestation
  attest_as role signer attester chain_digest requested outcome witnessed_root inclusion = do
    let attester_key = signer.public_key
    signature ← signer.sign (
        enc.signing_payload chain_digest requested outcome witnessed_root inclusion attester
          attester_key role)
    ok (record {
      chain_digest = chain_digest;
      requested_action_digest = requested;
      outcome_digest = outcome;
      witnessed_root = witnessed_root;
      inclusion = inclusion;
      attester = attester;
      attester_key = attester_key;
      role = role;
      signature = signature;
    })

  unfoldable pub attest :
      Signer
      → Principal
      → Digest
      → Digest
      → Digest
      → Digest
      → InclusionProof
      → Result CryptoError CompletionAttestation
  attest signer attester chain_digest requested outcome witnessed_root inclusion =
      attest_as third_party signer attester chain_digest requested outcome witnessed_root inclusion

  unfoldable pub verify : CompletionAttestation → PublicKey → Result AttestationError (Unit {0})
  verify a executor_key = do
    guard (not (a.attester_key == executor_key)) not_independent
    valid ← map_err crypto (verify_signature (payload_of a) a.signature a.attester_key)
    guard valid signature_invalid
