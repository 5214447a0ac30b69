-- ===== src/Attestation/Tests.antt =====
-- The theorems on attestations at two sample attesters.
use index_one.Base.{ℕ, ◌≡◌, refl, ◌≢◌, ◌↔◌, [], ◌∷◌, ok, err}
use index_one.Witness.{InclusionProof}
use index_one.Attestation.Completion.{
  CompletionAttestation, third_party, not_independent, attest_as, verify,
}
use index_one.Attestation.Threshold.{ThresholdAttestation, verify as verify_bundle}
use index_one.Attestation.Independence.{attest_as-verify}
use index_one.Attestation.Quorum.{HasQuorum, threshold_iff}
use index_one.Sample.{sample, sample_attestation, key_of, signed_by, signer_of, party}
use index_one.Sample.Length.{signer_of-IsGenuine}

abbrev alone : InclusionProof
alone = record { leaf_index = 0; tree_size = 1; path = [] }

-- Of the sample action by the attester with this seed.
abbrev attested_by : ℕ → CompletionAttestation
attested_by seed = record {
  chain_digest = 1 ∷ [];
  requested_action_digest = 2 ∷ [];
  outcome_digest = 2 ∷ [];
  witnessed_root = 3 ∷ [];
  inclusion = alone;
  attester = party seed;
  attester_key = key_of seed;
  role = third_party;
  signature = signed_by seed (
      sample_attestation.signing_payload (1 ∷ []) (2 ∷ []) (2 ∷ []) (3 ∷ []) alone (party seed)
        (key_of seed) third_party);
}

made_by_5 :
    attest_as third_party (signer_of 5) (party 5) (1 ∷ []) (2 ∷ []) (2 ∷ []) (3 ∷ []) alone
    ≡ ok (attested_by 5)
unfolding attest_as
made_by_5 = refl

attest_as-verify_example :
    ((signer_of 5).public_key ≢ key_of 4 → verify (attested_by 5) (key_of 4) ≡ ok tt)
    × (verify (attested_by 5) (key_of 5) ≡ err not_independent)
attest_as-verify_example =
    attest_as-verify third_party (signer_of 5) (party 5) (1 ∷ []) (2 ∷ []) (2 ∷ []) (3 ∷ []) alone
      (attested_by 5) (key_of 4) (signer_of-IsGenuine 5) made_by_5

abbrev two_of_two : ThresholdAttestation
two_of_two = record { attestations = attested_by 5 ∷ attested_by 6 ∷ []; threshold = 2 }

threshold_iff_example :
    (verify_bundle two_of_two (key_of 4) ≡ ok tt) ↔ HasQuorum two_of_two (key_of 4)
threshold_iff_example = threshold_iff two_of_two (key_of 4)
