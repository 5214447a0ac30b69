-- ===== src/Revocation.antt =====
-- core/revocation: the ids of blocks, the checkers that say whether a block is live, and the signed
-- snapshot of all revoked ids. A checker reads and may change the state `S` of all checkers.
mod Defs
mod Checkers
mod Snapshot
pub mod Freshness
pub mod Composition
pub mod ChainCheck
pub mod Rollback
pub mod Tests
pub use Defs.{
  RevocationId, TransparencyLogEntry, RevocationStatus, live, revoked, stale, RevocationError,
  Unreachable, Checker,
}
pub use Snapshot.{SignedRevocationSnapshot, SnapshotChecker, new_snapshot_checker, listed}
unfoldable pub use Defs.{
  from_signature, revocation_ids_for_chain, check_ids, check_chain_revocation,
}
pub use Checkers.{find_id}
unfoldable pub use Snapshot.{
  snapshot_signing_bytes, snapshot_verifies, sign_snapshot, accept_snapshot, snapshot_is_revoked,
}
