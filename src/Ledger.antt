-- ===== src/Ledger.antt =====
-- The accounting contract between the services: a dealer's stored balance is what their completed
-- orders were invoiced, less the payments that count, plus the refunds that count, less the goods
-- returned. An order's invoice counts from the completion of the order on (OrdersService), where the
-- balance first takes it up. Cross-check I4 of docs/LIQUID_CASH_ACCOUNTING_CONTRACT.md and of
-- test/support/invariants.ts sums all invoices of the dealer instead, those of orders under way too: it
-- is this contract only while every invoiced order is completed.
pub mod Offsets
use electro_mart_backend.Prelude.{
  ℕ, ◌≡◌, Bool, true, false, not, ◌&&◌, Option, none, some, ◌==◌, same_id, is_some,
}
use electro_mart_backend.Prelude.Int.{ℤ, ◌+ℤ◌, ◌-ℤ◌}
use electro_mart_backend.Rows.{
  Dealer, Order, OrderStatus, completed, Invoice, Payment, Refund, SalesReturn,
}
use electro_mart_backend.Table.{Table, lookup}
use electro_mart_backend.Table.Sums.{sum_where}
use electro_mart_backend.Store.{Store}
use electro_mart_backend.Invoicing.{is_effective_payment}

abbrev pub is_completed_status : OrderStatus → Bool
is_completed_status completed = true
is_completed_status _ = false

abbrev pub is_completed : Option Order → Bool
is_completed none = false
is_completed (some o) = is_completed_status o.status

unfoldable pub billed : ℕ → Table Order → Table Invoice → ℤ
billed d orders =
    sum_where (λ i. i.dealer_id == d && is_completed (lookup i.order_id orders))
      (λ i. i.grand_total)

unfoldable pub counted_payments : ℕ → Table Payment → ℤ
counted_payments d =
    sum_where (λ p. p.dealer_id == d && is_effective_payment p.mode p.cheque_status) (λ p. p.amount)

unfoldable pub counted_refunds : ℕ → Table Refund → ℤ
counted_refunds d =
    sum_where
      (λ r.
        same_id r.dealer_id (some d)
        && not (is_some r.cancelled_at)
        && is_effective_payment r.mode r.cheque_status)
      (λ r. r.amount)

unfoldable pub goods_returned : ℕ → Table SalesReturn → ℤ
goods_returned d = sum_where (λ r. r.dealer_id == d) (λ r. r.total_amount)

-- What the rows say that a dealer owes.
abbrev pub due : ℕ → Store → ℤ
due d s =
    billed d s.orders s.invoices
    -ℤ counted_payments d s.payments
    +ℤ counted_refunds d s.refunds
    -ℤ goods_returned d s.sales_returns

-- Every dealer's stored balance is what the rows say.
abbrev pub IsBalanced : Store → Type 0
IsBalanced s =
    (d : ℕ) (row : Dealer) → lookup d s.dealers ≡ some row → row.outstanding_balance ≡ due d s
