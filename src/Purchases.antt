-- ===== src/Purchases.antt =====
-- src/purchases/purchases.service.ts: goods bought of a supplier.
pub mod Changes
pub mod Owed
pub mod Units
pub mod Bought
