-- ===== src/ChequeFlow.antt =====
-- src/cheque-flow/cheque-flow.utils.ts: the summary, the timeline and the months of the cheque flow.
pub mod Summary
pub mod Totals
pub mod Timeline
pub mod Running
pub mod Months
