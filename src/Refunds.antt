-- ===== src/Refunds.antt =====
-- src/refunds/refunds.service.ts: money paid back to a dealer or received back from a supplier.
pub mod Form
pub mod Credit
pub mod Changes
pub mod Balance
pub mod Reads
pub mod Consistency
pub mod History
pub mod RoundTrip
