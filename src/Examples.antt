-- ===== src/Examples.antt =====
-- Runs of the services on small databases.
pub mod Data
mod Money
mod Credit
mod Goods
mod Returns
mod Commission
mod Trade
