-- ===== src/RevLog.antt =====
-- core/revlog: the revocation map whose roots are committed to the log, and its proofs.
mod Defs
mod Reads
pub mod Publish
pub mod Kept
pub mod Verdicts
pub mod Tests
pub use Defs.{MapCheckpoint, LogBackedRevocation, Committed, LogBackedProof, new, next_checkpoint}
unfoldable pub use Defs.{
  revoke, publish_checkpoint, prove, map_root_is_logged, verify_not_revoked, verify_revoked,
}
unfoldable pub use Reads.{signed_head, consistency_proof}
