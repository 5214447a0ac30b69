-- ===== src/Verifier/Defs.antt =====
-- core/verifier/src/lib.rs: the policy, `verify` and `verify_threshold`.
use index_one.Base.{
  ℕ, Bool, true, false, not, ◌&&◌, ◌||◌, List, [], ◌∷◌, any, ltb, contains, Result, ok, ◌>>=◌, ◌>>◌,
  guard, map_err, ◌==◌, ◌!=◌, list_eq, nat_eq, option_eq,
}
use index_one.Crypto.{PublicKey, public_key_eq, Primitives}
use index_one.Chain.{Chain, ChainEncoding, executor_key, digest, verify as verify_chain}
use index_one.Chain.Scope.{Scope, ChainError}
use index_one.Witness.{Digest, ActionReceipt, WitnessEncoding, verify_inclusion}
use index_one.Attestation.{
  counter_signed, third_party, CompletionAttestation, AttestationError, AttestationEncoding,
  ThresholdAttestation, ThresholdError, verify_completion, verify_bundle,
}

pub record VerifyPolicy : Type 0 where
  pub trusted_attesters : List PublicKey
  pub allow_counter_signed : Bool

-- `VerifyPolicy::third_party` and `VerifyPolicy::counter_signed`
abbrev pub third_party_policy : List PublicKey → VerifyPolicy
third_party_policy trusted = record { trusted_attesters = trusted; allow_counter_signed = false }

abbrev pub counter_signed_policy : VerifyPolicy
counter_signed_policy = record { trusted_attesters = []; allow_counter_signed = true }

unfoldable pub chain_has_key : Chain → PublicKey → Bool
chain_has_key chain key =
    chain.root.principal_key == key
    || any (λ d. d.from_key == key || d.to_key == key) chain.delegations

unfoldable pub attester_is_anchored : Chain → CompletionAttestation → VerifyPolicy → Bool
attester_is_anchored chain completion policy = elim completion.role [
  | third_party ↦ contains policy.trusted_attesters completion.attester_key
  | counter_signed ↦ policy.allow_counter_signed && chain_has_key chain completion.attester_key
]

pub record VerifiableAction : Type 0 where
  pub chain : Chain
  pub action_receipt : ActionReceipt
  pub completion : CompletionAttestation

pub record VerifiableThresholdAction : Type 0 where
  pub chain : Chain
  pub action_receipt : ActionReceipt
  pub completion : ThresholdAttestation

-- The variants Chain, Attestation, Threshold and Revoked have longer names, which no type has.
pub data VerifyError : Type 0 where
  chain_invalid : ChainError → VerifyError
  omission equivocation : VerifyError
  attestation_failed : AttestationError → VerifyError
  outcome_mismatch attester_not_anchored chain_binding_mismatch : VerifyError
  action_digest_inconsistent : VerifyError
  threshold_failed : ThresholdError → VerifyError
  insufficient_attestation : ℕ → ℕ → VerifyError
  not_unrevoked purpose_mismatch : VerifyError

module _ ⦃prim : Primitives⦄ ⦃we : WitnessEncoding⦄ where
  -- The loop over the inclusion proofs.
  unfoldable pub each_included :
      ActionReceipt → Digest → List CompletionAttestation → Result VerifyError (Unit {0})
  each_included receipt trusted_root [] = ok tt
  each_included receipt trusted_root (a ∷ rest) = do
    guard (verify_inclusion receipt a.inclusion trusted_root) omission
    each_included receipt trusted_root rest

-- The loop over the digests.
unfoldable pub each_consistent :
    ActionReceipt → List CompletionAttestation → Result VerifyError (Unit {0})
each_consistent receipt [] = ok tt
each_consistent receipt (a ∷ rest) = do
  guard (a.outcome_digest == receipt.action_digest) outcome_mismatch
  guard (a.requested_action_digest == receipt.action_digest) action_digest_inconsistent
  each_consistent receipt rest

module _ ⦃prim : Primitives⦄ ⦃ce : ChainEncoding⦄ ⦃we : WitnessEncoding⦄
    ⦃ae : AttestationEncoding⦄ where
  unfoldable pub verify :
      VerifiableAction → PublicKey → Digest → VerifyPolicy → Result VerifyError Scope
  verify action root_key trusted_root policy = do
    scope ← map_err chain_invalid (verify_chain action.chain root_key)
    let chain_digest = digest action.chain
    guard
        (not (
          action.action_receipt.chain_digest != chain_digest
          || action.completion.chain_digest != chain_digest))
        chain_binding_mismatch
    guard (action.completion.witnessed_root == trusted_root) equivocation
    guard (verify_inclusion action.action_receipt action.completion.inclusion trusted_root) omission
    map_err attestation_failed (verify_completion action.completion (executor_key action.chain))
    guard (attester_is_anchored action.chain action.completion policy) attester_not_anchored
    guard (action.completion.outcome_digest == action.action_receipt.action_digest) outcome_mismatch
    guard (action.completion.requested_action_digest == action.action_receipt.action_digest)
        action_digest_inconsistent
    guard (action.completion.requested_action_digest == action.action_receipt.action_digest)
        action_digest_inconsistent
    ok scope

  unfoldable pub verify_threshold :
      VerifiableThresholdAction → PublicKey → Digest → ℕ → VerifyPolicy → Result VerifyError Scope
  verify_threshold action root_key trusted_root required_threshold policy = do
    scope ← map_err chain_invalid (verify_chain action.chain root_key)
    let chain_digest = digest action.chain
    let bundle = action.completion
    guard (not (ltb bundle.threshold required_threshold))
        (insufficient_attestation required_threshold bundle.threshold)
    guard
        (not (
          action.action_receipt.chain_digest != chain_digest
          || any (λ a. a.chain_digest != chain_digest) bundle.attestations))
        chain_binding_mismatch
    guard (not (any (λ a. a.witnessed_root != trusted_root) bundle.attestations)) equivocation
    each_included action.action_receipt trusted_root bundle.attestations
    map_err threshold_failed (verify_bundle bundle (executor_key action.chain))
    guard (not (any (λ a. not (attester_is_anchored action.chain a policy)) bundle.attestations))
        attester_not_anchored
    each_consistent action.action_receipt bundle.attestations
    ok scope
