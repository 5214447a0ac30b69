-- ===== src/WitnessService.antt =====
-- services/witness: the durable store of the log's receipts, and the handler that accepts them.
mod Store
mod Submit
pub mod Recovery
pub mod Durable
pub mod Tests
