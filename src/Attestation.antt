-- ===== src/Attestation.antt =====
-- core/attestation: completions signed by a party other than the executor, alone and k of n.
mod Completion
mod Threshold
pub mod Independence
pub mod Quorum
pub mod Tests
pub use Completion.{
  AttesterRole, counter_signed, third_party, CompletionAttestation, AttestationError,
  AttestationEncoding, payload_of,
}
pub use Threshold.{ThresholdAttestation, ThresholdError}
unfoldable pub use Completion.{attest_as, attest}
unfoldable pub use Completion.{verify as verify_completion}
unfoldable pub use Threshold.{verify as verify_bundle}
