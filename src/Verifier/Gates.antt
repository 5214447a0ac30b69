-- ===== src/Verifier/Gates.antt =====
-- core/verifier/src/lib.rs: the gates for revocation and for the purpose, and the checks behind them.
use index_one.Base.{
  ℕ, List, [], ◌∷◌, length, last?, Text, Result, ok, ◌>>=◌, ◌>>◌, guard, ok_or, ◌==◌, list_eq,
  nat_eq, option_eq,
}
use index_one.Crypto.{PublicKey, Primitives}
use index_one.Chain.{Chain, ChainEncoding, DelegationBlock}
use index_one.Chain.Scope.{Scope}
use index_one.Witness.{Digest, WitnessEncoding, bind_action}
use index_one.Attestation.{AttestationEncoding}
use index_one.Revocation.{RevocationId, find_id, revocation_ids_for_chain}
use index_one.RevLog.{LogBackedProof, verify_not_revoked}
use index_one.Verifier.Defs.{
  VerifyPolicy, VerifiableAction, VerifiableThresholdAction, VerifyError, not_unrevoked,
  purpose_mismatch, verify, verify_threshold,
}

-- `proofs` is a map from the ids to their proofs.
pub record RevocationEvidence : Type 0 where
  pub log_key : PublicKey
  pub proofs : List (RevocationId × LogBackedProof)

module _ ⦃prim : Primitives⦄ ⦃we : WitnessEncoding⦄ where
  -- The loop of `verify_chain_not_revoked`.
  unfoldable pub each_not_revoked :
      RevocationEvidence → List RevocationId → Result VerifyError (Unit {0})
  each_not_revoked evidence [] = ok tt
  each_not_revoked evidence (id ∷ ids) = do
    proof ← ok_or (find_id evidence.proofs id) not_unrevoked
    guard (length id == 32) not_unrevoked
    guard (verify_not_revoked proof id evidence.log_key) not_unrevoked
    each_not_revoked evidence ids

  unfoldable pub verify_chain_not_revoked :
      Chain → RevocationEvidence → Result VerifyError (Unit {0})
  verify_chain_not_revoked chain evidence =
      each_not_revoked evidence (revocation_ids_for_chain chain)

module _ ⦃prim : Primitives⦄ where
  abbrev purpose_of : DelegationBlock → Text
  purpose_of hop = hop.purpose

  unfoldable pub verify_action_purpose_binding :
      VerifiableAction → Digest → Result VerifyError (Unit {0})
  verify_action_purpose_binding action params_digest = do
    hop ← ok_or (last? action.chain.delegations) purpose_mismatch
    guard (bind_action (purpose_of hop) params_digest == action.action_receipt.action_digest)
        purpose_mismatch

module _ ⦃prim : Primitives⦄ ⦃ce : ChainEncoding⦄ ⦃we : WitnessEncoding⦄
    ⦃ae : AttestationEncoding⦄ where
  unfoldable pub verify_with_revocation :
      VerifiableAction
      → PublicKey
      → Digest
      → VerifyPolicy
      → RevocationEvidence
      → Result VerifyError Scope
  verify_with_revocation action root_key trusted_root policy revocation = do
    verify_chain_not_revoked action.chain revocation
    verify action root_key trusted_root policy

  unfoldable pub verify_threshold_with_revocation :
      VerifiableThresholdAction
      → PublicKey
      → Digest
      → ℕ
      → VerifyPolicy
      → RevocationEvidence
      → Result VerifyError Scope
  verify_threshold_with_revocation action root_key trusted_root required_threshold policy
        revocation =
      do
        verify_chain_not_revoked action.chain revocation
        verify_threshold action root_key trusted_root required_threshold policy

  unfoldable pub verify_with_purpose :
      VerifiableAction → PublicKey → Digest → VerifyPolicy → Digest → Result VerifyError Scope
  verify_with_purpose action root_key trusted_root policy params_digest = do
    verify_action_purpose_binding action params_digest
    verify action root_key trusted_root policy
