-- ===== src/Witness/Tests.antt =====
-- The theorems on the log at a log of three receipts.
use index_one.Base.{
  ℕ, ◌≡◌, refl, true, some, ◌⊎◌, List, [], ◌∷◌, ◌<◌, arith, length, get_elem?, map, ◌↔◌, none, ok,
}
use index_one.Witness.Defs.{
  Digest, InclusionProof, ConsistencyProof, hash_leaf, hash_node, SignedTreeHead,
}
use index_one.Witness.Tree.{split_loop, split_point}
use index_one.Witness.Log.{
  Witness, new, root, append, inclusion_proof, consistency_proof, signed_head, size,
}
use index_one.Witness.Check.{climb, verify_inclusion, verify_consistency, reconcile_heads}
use index_one.Witness.TreeHash.{tree_hash, tree_hash_fuel, log_root}
use index_one.Witness.Memo.{IsValid, new-IsValid, root-eq-log_root, append-IsValid}
use index_one.Witness.Inclusion.{verify_inclusion-inclusion_proof}
use index_one.Witness.Collision.{Collision, IsSized}
use index_one.Witness.Heads.{IsReconciled, reconcile_heads_iff}
use index_one.Witness.Growth.{verify_consistency-consistency_proof}
use index_one.Witness.Honest.{reconcile_heads-signed_head}
use index_one.Witness.Omission.{leaves_of, accepted_is_logged}
use index_one.Sample.{sample, sample_witness, receipt_of, signer_of, key_of, signed_by}
use index_one.Sample.Length.{length-fixed, signer_of-IsGenuine}

sample-IsSized : IsSized
sample-IsSized x = length-fixed 32 x

abbrev one_leaf : Witness
one_leaf = (append new (receipt_of 1)).1

abbrev two_leaves : Witness
two_leaves = (append one_leaf (receipt_of 2)).1

abbrev three_leaves : Witness
three_leaves = (append two_leaves (receipt_of 3)).1

two-IsValid : IsValid two_leaves
two-IsValid =
    (append-IsValid one_leaf (receipt_of 2) (append-IsValid new (receipt_of 1) new-IsValid).0).0

three-IsValid : IsValid three_leaves
three-IsValid = (append-IsValid two_leaves (receipt_of 3) two-IsValid).0

root-eq-log_root_example :
    ((root three_leaves).0 ≡ log_root three_leaves.leaf_hashes)
    × ((root three_leaves).1.leaf_hashes ≡ three_leaves.leaf_hashes)
    × IsValid (root three_leaves).1
root-eq-log_root_example = root-eq-log_root three_leaves three-IsValid

abbrev three_hashes : List Digest
three_hashes =
    leaves_of (map sample_witness.receipt_bytes (receipt_of 1 ∷ receipt_of 2 ∷ receipt_of 3 ∷ []))

abbrev three_log : Witness
three_log = record { leaf_hashes = three_hashes; subtree_cache = [] }

verify_inclusion-inclusion_proof_example :
    (proof : InclusionProof) × ((inclusion_proof three_log 2).0 ≡ some proof)
    × (proof.leaf_index ≡ 2)
    × (proof.tree_size ≡ 3)
    × (verify_inclusion (receipt_of 3) proof (log_root three_hashes) ≡ true)
    × IsValid (inclusion_proof three_log 2).1
verify_inclusion-inclusion_proof_example =
    verify_inclusion-inclusion_proof three_log 2 (receipt_of 3) tt (omega arith) (omega arith) refl

abbrev two_hashes : List Digest
two_hashes = leaves_of (map sample_witness.receipt_bytes (receipt_of 1 ∷ receipt_of 2 ∷ []))

verify_consistency-consistency_proof_example :
    (proof : ConsistencyProof) × ((consistency_proof three_log 2 3).0 ≡ some proof)
    × (verify_consistency (log_root two_hashes) (log_root three_hashes) proof 2 3 ≡ true)
    × IsValid (consistency_proof three_log 2 3).1
verify_consistency-consistency_proof_example =
    verify_consistency-consistency_proof three_log two_hashes (hash_leaf (3 ∷ 3 ∷ []) ∷ []) tt refl

-- Of a log of two, with the sibling of its second leaf.
abbrev second_proof : InclusionProof
second_proof = record {
  leaf_index = 1;
  tree_size = 2;
  path = record { sibling = hash_leaf (1 ∷ 1 ∷ []); sibling_is_left = true } ∷ [];
}

second_accepted : verify_inclusion (receipt_of 2) second_proof (log_root two_hashes) ≡ true
unfolding verify_inclusion climb tree_hash tree_hash_fuel split_point split_loop hash_leaf hash_node
second_accepted = refl

second_sizes : length (hash_leaf (1 ∷ 1 ∷ [])) ≡ 32
unfolding hash_leaf
second_sizes = refl

accepted_is_logged_example :
    ((i : ℕ) × (i < 2)
      × (get_elem? (map sample_witness.receipt_bytes (receipt_of 1 ∷ receipt_of 2 ∷ [])) i
          ≡ some (2 ∷ 2 ∷ [])))
    ⊎ Collision
accepted_is_logged_example =
    accepted_is_logged (receipt_of 1 ∷ receipt_of 2 ∷ []) (receipt_of 2) second_proof sample-IsSized
      (omega arith) (second_sizes, tt) second_accepted

abbrev three_head : SignedTreeHead
three_head = record {
  tree_size = size three_leaves;
  root = (root three_leaves).0;
  signature = signed_by 1 (sample_witness.head_bytes (size three_leaves) (root three_leaves).0);
}

three_signed : (signed_head three_leaves (signer_of 1)).0 ≡ ok three_head
unfolding signed_head
three_signed = refl

reconcile_heads_iff_example :
    (reconcile_heads three_head three_head (key_of 1) none ≡ ok tt)
    ↔ IsReconciled three_head three_head (key_of 1) none
reconcile_heads_iff_example = reconcile_heads_iff three_head three_head (key_of 1) none

abbrev two_head : SignedTreeHead
two_head = record {
  tree_size = size two_leaves;
  root = (root two_leaves).0;
  signature = signed_by 1 (sample_witness.head_bytes (size two_leaves) (root two_leaves).0);
}

two_signed : (signed_head two_leaves (signer_of 1)).0 ≡ ok two_head
unfolding signed_head
two_signed = refl

reconcile_heads-signed_head_example :
    (reconcile_heads two_head three_head
        (key_of 1)
        (consistency_proof three_leaves (size two_leaves) (size three_leaves)).0
      ≡ ok tt)
    × (reconcile_heads three_head two_head
          (key_of 1)
          (consistency_proof three_leaves (size two_leaves) (size three_leaves)).0
        ≡ ok tt)
reconcile_heads-signed_head_example =
    reconcile_heads-signed_head two_leaves three_leaves (hash_leaf (3 ∷ 3 ∷ []) ∷ []) (signer_of 1)
      two_head three_head two-IsValid three-IsValid
      (append-IsValid two_leaves (receipt_of 3) two-IsValid).1 (signer_of-IsGenuine 1) two_signed
      three_signed
