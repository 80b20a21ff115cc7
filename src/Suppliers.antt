-- ===== src/Suppliers.antt =====
-- What the business owes its suppliers, and how it settles it.
pub mod Balance
