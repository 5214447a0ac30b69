-- ===== src/Chain.antt =====
-- core/chain/src/lib.rs: issuing a chain, appending a hop, and verifying the whole.
pub mod Scope
mod Blocks
mod Verify
pub mod Spec
pub mod Extend
pub mod Tests
pub use Blocks.{
  Principal, principal_eq, RootBlock, DelegationBlock, Chain, ChainEncoding, Tail, root_tail,
  block_tail,
}
unfoldable pub use Blocks.{executor_key, root_hash, delegation_hash, tail, digest}
unfoldable pub use Verify.{issue, from_root, attenuate, verify}
