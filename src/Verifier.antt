-- ===== src/Verifier.antt =====
-- core/verifier: the composed check of a relying party.
mod Defs
mod Gates
pub mod Accepted
pub mod AcceptedThreshold
pub mod Gated
pub mod Tests
