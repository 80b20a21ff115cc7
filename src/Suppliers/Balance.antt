-- ===== src/Suppliers/Balance.antt =====
-- src/common/utils/supplier-balance.ts: what the business owes a supplier (positive) or is owed by
-- them (negative), from the rows.
use electro_mart_backend.Prelude.{
  ℕ, Bool, true, not, ◌&&◌, Option, none, some, ◌==◌, same_id, is_some,
}
use electro_mart_backend.Prelude.Int.{ℤ, ◌+ℤ◌, ◌-ℤ◌}
use electro_mart_backend.Table.Sums.{sum_where}
use electro_mart_backend.Store.{Store}
use electro_mart_backend.Wallet.{sql_effective, is_dealer_party}

pub record SupplierBalanceComponents : Type 0 where
  pub purchases : ℤ
  pub transport_charges : ℤ
  pub returns : ℤ
  pub replacements : ℤ
  pub settled : ℤ
  pub refunds_received : ℤ

unfoldable pub supplier_balance : SupplierBalanceComponents → ℤ
supplier_balance c =
    c.purchases -ℤ c.returns +ℤ c.replacements -ℤ c.settled -ℤ c.transport_charges
    +ℤ c.refunds_received

-- `...(supplierId ? { supplierId } : {})` in a WHERE clause.
abbrev pub by_supplier : Option ℕ → ℕ → Bool
by_supplier none id = true
by_supplier (some s) id = id == s

abbrev pub by_supplier? : Option ℕ → Option ℕ → Bool
by_supplier? none id = true
by_supplier? (some s) id = same_id id (some s)

-- The components of one supplier's balance, or of all suppliers' together.
unfoldable pub supplier_components : Option ℕ → Store → SupplierBalanceComponents
unfolding sql_effective
supplier_components supplier_id s = record {
  purchases =
      sum_where (λ p. by_supplier supplier_id p.supplier_id) (λ p. p.total_value) s.purchases;
  transport_charges =
      sum_where (λ p. by_supplier supplier_id p.supplier_id) (λ p. p.transport_charges) s.purchases;
  returns =
      sum_where (λ r. by_supplier supplier_id r.supplier_id) (λ r. r.total_amount)
        s.purchase_returns;
  replacements =
      sum_where (λ r. by_supplier supplier_id r.supplier_id) (λ r. r.total_amount) s.replacements;
  settled =
      sum_where (λ p. by_supplier supplier_id p.supplier_id && sql_effective p.mode p.cheque_status)
        (λ p. p.amount) s.supplier_payments;
  refunds_received =
      sum_where
        (λ r.
          by_supplier? supplier_id r.supplier_id
          && not (is_dealer_party r.party)
          && not (is_some r.cancelled_at)
          && sql_effective r.mode r.cheque_status)
        (λ r. r.amount) s.refunds;
}

unfoldable pub compute_supplier_balance : Option ℕ → Store → ℤ
unfolding supplier_balance supplier_components
compute_supplier_balance supplier_id s = supplier_balance (supplier_components supplier_id s)
