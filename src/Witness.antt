-- ===== src/Witness.antt =====
-- core/witness: the append-only Merkle log, its proofs and its signed heads.
mod Defs
mod Tree
mod Log
mod Check
pub mod Split
pub mod TreeHash
pub mod Memo
pub mod Inclusion
pub mod Collision
pub mod Heads
pub mod Rounds
pub mod Levels
pub mod Consistency
pub mod Subproof
pub mod Spine
pub mod Pushes
pub mod Growth
pub mod Honest
pub mod Kept
pub mod Omission
pub mod Purpose
pub mod Tests
pub use Defs.{
  Digest, ActionReceipt, PathStep, InclusionProof, ConsistencyProof, SignedTreeHead,
  WitnessEncoding, u64_be,
}
pub use Check.{EquivocationError, invalid_signed_head, forked_root, inconsistent, max_proof_path}
pub use Tree.{leaf_at}
pub use Log.{Witness, new, size}
unfoldable pub use Defs.{bind_action, hash_leaf, hash_node, empty_root}
unfoldable pub use Log.{root, append, inclusion_proof, consistency_proof, signed_head}
unfoldable pub use Check.{
  climb, verify_consistency, verify_inclusion, verify_signed_head, reconcile_heads,
}
