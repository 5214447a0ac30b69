-- ===== src/Crypto/Tests.antt =====
-- The theorems on signatures at a hybrid of two sample signers.
use index_one.Base.{◌≡◌, refl, true, [], ◌∷◌, ◌++◌, ok}
use index_one.Crypto.{hybrid, Signature, PublicKey, verify_signature}
use index_one.Crypto.Framing.{Component, frame_two, decode_two, encode_component, algorithm_tag}
use index_one.Crypto.Hybrid
use index_one.Crypto.Hybrid.{HybridSigner, component_sig, component_key}
use index_one.Crypto.Verify.Components.{hybrid_needs_both, hybrid_signer-IsGenuine}
use index_one.Sample.{sample, key_of, signed_by, signer_of}
use index_one.Sample.Length.{signer_of-IsGenuine}

abbrev pair_key : PublicKey
pair_key = record {
  algorithm = hybrid;
  bytes = 0 ∷ 0 ∷ 0 ∷ 0 ∷ 32 ∷ ((key_of 1).bytes ++ (0 ∷ 0 ∷ 0 ∷ 0 ∷ 32 ∷ (key_of 2).bytes));
}

abbrev pair_signer : HybridSigner
pair_signer = record { classical = signer_of 1; post_quantum = signer_of 2; public_key = pair_key }

made : Hybrid.new (signer_of 1) (signer_of 2) ≡ ok pair_signer
unfolding Hybrid.new frame_two encode_component algorithm_tag
made = refl

abbrev pair_signature : Signature
pair_signature = record {
  algorithm = hybrid;
  bytes =
      0
      ∷ 0
      ∷ 0
      ∷ 0
      ∷ 64
      ∷ ((signed_by 1 (5 ∷ [])).bytes ++ (0 ∷ 0 ∷ 0 ∷ 0 ∷ 64 ∷ (signed_by 2 (5 ∷ [])).bytes));
}

pair_signed : (Hybrid.signer pair_signer).sign (5 ∷ []) ≡ ok pair_signature
unfolding Hybrid.signer Hybrid.sign frame_two encode_component algorithm_tag
pair_signed = refl

pair_holds : verify_signature (5 ∷ []) pair_signature pair_key ≡ ok true
unfolding Hybrid.signer
pair_holds =
    hybrid_signer-IsGenuine (signer_of 1) (signer_of 2) pair_signer made (signer_of-IsGenuine 1)
      (signer_of-IsGenuine 2) (5 ∷ []) pair_signature pair_signed

hybrid_needs_both_example :
    (pair_key.algorithm ≡ hybrid)
    × (s0 s1 k0 k1 : Component) × (decode_two pair_signature.bytes ≡ ok (s0, s1))
    × (decode_two pair_key.bytes ≡ ok (k0, k1))
    × (verify_signature (5 ∷ []) (component_sig s0) (component_key k0) ≡ ok true)
    × (verify_signature (5 ∷ []) (component_sig s1) (component_key k1) ≡ ok true)
hybrid_needs_both_example = hybrid_needs_both (5 ∷ []) pair_signature pair_key refl pair_holds
