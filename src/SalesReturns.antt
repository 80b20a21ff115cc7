-- ===== src/SalesReturns.antt =====
-- src/sales-returns/sales-returns.service.ts: goods that a dealer brings back.
pub mod Items
pub mod Changes
pub mod Balance
pub mod Steps
pub mod Allowance
pub mod Honest
pub mod Sound
pub mod Refusals
