-- ===== src/Verifier/Tests.antt =====
-- The theorems on the composed check at the chain of one hop, a log of its one receipt, and an
-- attester that the policy trusts.
use index_one.Base.{
  ℕ, ◌≡◌, refl, ◌≢◌, ◌↔◌, ◌⊎◌, inl, true, [], ◌∷◌, All, ok, arith, ==_refl, list_eq, nat_eq,
  option_eq,
}
use index_one.Crypto.{public_key_eq}
use index_one.Chain.{executor_key, digest}
use index_one.Chain.Spec.{verify_iff}
use index_one.Chain.Tests.{hop, hop_chain, hop_verified}
use index_one.Witness.{
  climb, Digest, ActionReceipt, InclusionProof, bind_action, hash_leaf, verify_inclusion,
}
use index_one.Witness.Collision.{Collision}
use index_one.Attestation.{CompletionAttestation, third_party}
use index_one.Revocation.{revocation_ids_for_chain}
use index_one.Verifier.Defs.{
  VerifyPolicy, third_party_policy, VerifiableAction, VerifiableThresholdAction, verify,
  verify_threshold,
}
use index_one.Verifier.Gates.{
  RevocationEvidence, verify_with_revocation, verify_threshold_with_revocation, verify_with_purpose,
}
use index_one.Verifier.Accepted.{IsAccepted, verify-IsAccepted}
use index_one.Verifier.AcceptedThreshold.{IsAcceptedBundle, verify_threshold-IsAcceptedBundle}
use index_one.Verifier.Gated.{
  IsUnrevoked, IsPurposeBound, verify_with_revocation-IsAccepted,
  verify_threshold_with_revocation-IsAcceptedBundle, verify_with_purpose-IsAccepted, one_purpose,
}
use index_one.Sample.{
  fixed, sample, sample_chain, sample_witness, sample_attestation, key_of, signed_by, party, paying,
}
use index_one.Sample.Length.{signed_by_holds}

abbrev params : Digest
params = fixed 32 (5 ∷ [])

abbrev receipt : ActionReceipt
receipt = record {
  chain_digest = digest hop_chain;
  action_digest = bind_action (98 ∷ []) params;
  nonce = 7 ∷ [];
  prev_root = [];
}

abbrev trusted_root : Digest
trusted_root = hash_leaf (sample_witness.receipt_bytes receipt)

abbrev only_leaf : InclusionProof
only_leaf = record { leaf_index = 0; tree_size = 1; path = [] }

abbrev attested_by : ℕ → CompletionAttestation
attested_by seed = record {
  chain_digest = digest hop_chain;
  requested_action_digest = receipt.action_digest;
  outcome_digest = receipt.action_digest;
  witnessed_root = trusted_root;
  inclusion = only_leaf;
  attester = party seed;
  attester_key = key_of seed;
  role = third_party;
  signature = signed_by seed (
      sample_attestation.signing_payload (digest hop_chain) receipt.action_digest
        receipt.action_digest trusted_root only_leaf (party seed) (key_of seed) third_party);
}

abbrev action : VerifiableAction
action = record { chain = hop_chain; action_receipt = receipt; completion = attested_by 9 }

abbrev policy : VerifyPolicy
policy = third_party_policy (key_of 9 ∷ key_of 8 ∷ [])

included : verify_inclusion receipt only_leaf trusted_root ≡ true
unfolding verify_inclusion climb
included = ==_refl trusted_root

apart : key_of 9 ≢ executor_key hop_chain
unfolding executor_key
apart e = ground (arith, e)

action-IsAccepted : IsAccepted action (key_of 1) trusted_root policy (paying 60 2)
action-IsAccepted = record {
  authorized = (verify_iff hop_chain (key_of 1) (paying 60 2)).0 hop_verified;
  receipt_bound = refl;
  completion_bound = refl;
  root = refl;
  included = included;
  independent = record { other = apart; signed = signed_by_holds 9 _ };
  anchored = inl (refl, refl);
  outcome = refl;
  requested = refl;
}

accepted : verify action (key_of 1) trusted_root policy ≡ ok (paying 60 2)
accepted =
    (verify-IsAccepted action (key_of 1) trusted_root policy (paying 60 2)).1 action-IsAccepted

verify-IsAccepted_example :
    (verify action (key_of 1) trusted_root policy ≡ ok (paying 60 2))
    ↔ IsAccepted action (key_of 1) trusted_root policy (paying 60 2)
verify-IsAccepted_example = verify-IsAccepted action (key_of 1) trusted_root policy (paying 60 2)

abbrev bundle : VerifiableThresholdAction
bundle = record {
  chain = hop_chain;
  action_receipt = receipt;
  completion = record { attestations = attested_by 9 ∷ attested_by 8 ∷ []; threshold = 2 };
}

verify_threshold-IsAcceptedBundle_example :
    (verify_threshold bundle (key_of 1) trusted_root 2 policy ≡ ok (paying 60 2))
    ↔ IsAcceptedBundle bundle (key_of 1) trusted_root 2 policy (paying 60 2)
verify_threshold-IsAcceptedBundle_example =
    verify_threshold-IsAcceptedBundle bundle (key_of 1) trusted_root 2 policy (paying 60 2)

-- No hop is shown unrevoked.
abbrev no_evidence : RevocationEvidence
no_evidence = record { log_key = key_of 7; proofs = [] }

verify_with_revocation-IsAccepted_example :
    (verify_with_revocation action (key_of 1) trusted_root policy no_evidence ≡ ok (paying 60 2))
    ↔ (All (IsUnrevoked no_evidence) (revocation_ids_for_chain hop_chain)
        × IsAccepted action (key_of 1) trusted_root policy (paying 60 2))
verify_with_revocation-IsAccepted_example =
    verify_with_revocation-IsAccepted action (key_of 1) trusted_root policy no_evidence
      (paying 60 2)

verify_threshold_with_revocation-IsAcceptedBundle_example :
    (verify_threshold_with_revocation bundle (key_of 1) trusted_root 2 policy no_evidence
      ≡ ok (paying 60 2))
    ↔ (All (IsUnrevoked no_evidence) (revocation_ids_for_chain hop_chain)
        × IsAcceptedBundle bundle (key_of 1) trusted_root 2 policy (paying 60 2))
verify_threshold_with_revocation-IsAcceptedBundle_example =
    verify_threshold_with_revocation-IsAcceptedBundle bundle (key_of 1) trusted_root 2 policy
      no_evidence (paying 60 2)

verify_with_purpose-IsAccepted_example :
    (verify_with_purpose action (key_of 1) trusted_root policy params ≡ ok (paying 60 2)) ↔ (
      IsPurposeBound action params × IsAccepted action (key_of 1) trusted_root policy (paying 60 2))
verify_with_purpose-IsAccepted_example =
    verify_with_purpose-IsAccepted action (key_of 1) trusted_root policy params (paying 60 2)

accepted_for_purpose :
    verify_with_purpose action (key_of 1) trusted_root policy params ≡ ok (paying 60 2)
accepted_for_purpose =
    verify_with_purpose-IsAccepted_example.1 ((hop, refl, refl), action-IsAccepted)

one_purpose_example : ((hop.purpose ≡ hop.purpose) × (params ≡ params)) ⊎ Collision
one_purpose_example =
    one_purpose action action (key_of 1) trusted_root policy params params (paying 60 2)
      (paying 60 2) hop hop refl refl refl refl refl accepted_for_purpose accepted_for_purpose
