-- ===== src/Attestation/Independence.antt =====
-- What one accepted completion attestation says, and that an independent attester's is accepted.
use index_one.Base.{
  ◌≡◌, refl, subst, ◌≢◌, ◌↔◌, true, false, not, ok, err, arith, guard_then, bind_then, valid_only,
  ok-injective, ◌==◌, ==_iff, nat_eq, list_eq, option_eq,
}
use index_one.Crypto.{PublicKey, public_key_eq, Signer, Primitives, verify_signature, IsGenuine}
use index_one.Chain.{Principal}
use index_one.Witness.{Digest, InclusionProof}
use index_one.Attestation.Completion.{
  CompletionAttestation, AttestationEncoding, AttesterRole, not_independent, signature_invalid,
  crypto, payload_of, attest_as, verify,
}

module _ ⦃prim : Primitives⦄ ⦃enc : AttestationEncoding⦄ where
  -- Signed by the attester that it names, who is not the executor.
  pub record IsIndependent (a : CompletionAttestation) (executor_key : PublicKey) : Type 0 where
    pub other : a.attester_key ≢ executor_key
    pub signed : verify_signature (payload_of a) a.signature a.attester_key ≡ ok true

  pub IsIndependent-of_ok :
      (a : CompletionAttestation) (executor_key : PublicKey)
      → verify a executor_key ≡ ok tt
      → IsIndependent a executor_key
  unfolding verify
  IsIndependent-of_ok a executor_key h =
      let (other, h1) = guard_then (not (a.attester_key == executor_key)) not_independent _ h in
      record {
        other = ground (arith, other, ==_iff a.attester_key executor_key);
        signed = valid_only crypto _ signature_invalid h1;
      }

  pub IsIndependent-ok :
      (a : CompletionAttestation) (executor_key : PublicKey)
      → IsIndependent a executor_key
      → verify a executor_key ≡ ok tt
  unfolding verify
  IsIndependent-ok a executor_key i =
      let other : (a.attester_key == executor_key) ≡ false =
        ground (arith, i.other, ==_iff a.attester_key executor_key) in
      rw (other, i.signed)

  -- `CompletionAttestation::verify` accepts exactly the attestations whose attester key is not the
  -- executor's and whose signature over all other fields holds under the attester key.
  pub verify_completion_iff :
      (a : CompletionAttestation) (executor_key : PublicKey)
      → (verify a executor_key ≡ ok tt) ↔ IsIndependent a executor_key
  verify_completion_iff a executor_key =
      (IsIndependent-of_ok a executor_key, IsIndependent-ok a executor_key)

  -- What a genuine attester signs is accepted against every executor key but its own, and against
  -- its own key it is rejected as not independent.
  pub attest_as-verify :
      (role : AttesterRole) (signer : Signer) (attester : Principal)
      (chain_digest requested outcome witnessed_root : Digest) (inclusion : InclusionProof)
      (a : CompletionAttestation) (executor_key : PublicKey)
      → IsGenuine signer
      → attest_as role signer attester chain_digest requested outcome witnessed_root inclusion
        ≡ ok a
      → (signer.public_key ≢ executor_key → verify a executor_key ≡ ok tt)
        × (verify a signer.public_key ≡ err not_independent)
  unfolding attest_as verify
  attest_as-verify role signer attester chain_digest requested outcome witnessed_root inclusion a
        executor_key genuine h =
      let payload =
        enc.signing_payload chain_digest requested outcome witnessed_root inclusion attester
          signer.public_key role in
      let (signature, signed, made) = bind_then (signer.sign payload) _ h in
      let holds = genuine payload signature signed in
      subst
        (λ (x : CompletionAttestation).
          (signer.public_key ≢ executor_key → verify x executor_key ≡ ok tt)
          × (verify x signer.public_key ≡ err not_independent))
        (ok-injective made)
        (
          λ other.
              (let apart : (signer.public_key == executor_key) ≡ false =
                  ground (arith, other, ==_iff signer.public_key executor_key) in
                rw (apart, holds)),
          rw ((==_iff signer.public_key signer.public_key).1 refl),
        )
