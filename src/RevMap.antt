-- ===== src/RevMap.antt =====
-- core/revmap: the sparse Merkle map of revoked keys, and its proofs.
mod Defs
mod Map
pub mod Soundness
pub mod Order
pub mod Bits
pub mod Halves
pub mod NonInclusion
pub mod Paths
pub mod Completeness
pub mod Elision
pub mod Tests
pub use Defs.{Hash, MapProof}
pub use Map.{RevocationMap, new_map, insert_at}
unfoldable pub use Defs.{verify_inclusion, verify_non_inclusion}
unfoldable pub use Map.{revoke, map_contains, map_root, prove, binary_search}
