-- ===== src/Checkpoint.antt =====
-- clients/checkpoint/src/lib.rs: a tree head as a signed note, the witness that cosigns notes, and
-- the quorum of witnesses that a relying party asks for.
mod Str
mod Note
mod Cosigner
pub mod Lines
pub mod Decimal
pub mod Written
pub mod RoundTrip
pub mod Cosigned
pub mod Cosigning
pub mod History
pub mod Quorum
pub mod Encoding
pub mod Tests
