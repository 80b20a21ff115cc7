-- ===== src/Payments.antt =====
-- src/payments/payments.service.ts: recording, editing, deleting and undoing a dealer's payments.
pub mod Form
pub mod Checks
pub mod Revisions
pub mod Changes
pub mod Undo
pub mod Reads
pub mod Owners
pub mod Keeps
pub mod Balance
pub mod Consistency
pub mod Undoing
pub mod History
pub mod RoundTrip
pub mod Fit
