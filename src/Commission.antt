-- ===== src/Commission.antt =====
-- src/commission: what a representative earns, and how it is paid out.
pub mod Lines
pub mod Settlements
pub mod Payouts
pub mod Reads
pub mod PaidOut
pub mod Progress
pub mod Advances
pub mod Allotment
pub mod Allotted
pub mod Once
pub mod Reconcile
pub mod Rules
pub mod Reconciled
pub mod Reversed
pub mod Stalled
