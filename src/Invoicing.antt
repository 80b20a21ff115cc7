-- ===== src/Invoicing.antt =====
-- src/common/utils/invoice-financials.ts: what counts as paid on an invoice, and its payment status.
use electro_mart_backend.Prelude.{
  ℕ, Bool, true, false, not, ◌&&◌, Option, some, List, foldl, ◌==◌, same_id, if◌then◌else◌,
}
use electro_mart_backend.Prelude.Int.{ℤ, pos, ◌+ℤ◌, ◌-ℤ◌, leb_ℤ, gtb_ℤ}
use electro_mart_backend.Result.{record_not_found}
use electro_mart_backend.Cheques.{PaymentMode, ChequeStatus, returned, is_cheque}
use electro_mart_backend.Rows.{Invoice, Payment, PaymentStatus, paid, unpaid, partial}
use electro_mart_backend.Table.{lookup, update, rows_where}
use electro_mart_backend.Table.Sums.{sum_where}
use electro_mart_backend.Store.{Store, M, pure, gets, modify, or_throw, ◌>>=◌, ◌>>◌}

abbrev pub is_returned : Option ChequeStatus → Bool
is_returned (some returned) = true
is_returned _ = false

unfoldable pub is_effective_payment : PaymentMode → Option ChequeStatus → Bool
is_effective_payment mode status = not (is_cheque mode && is_returned status)

unfoldable pub compute_effective_paid : List Payment → ℤ
unfolding is_effective_payment
compute_effective_paid =
    foldl (λ sum p. if is_effective_payment p.mode p.cheque_status then sum +ℤ p.amount else sum)
      (pos 0)

unfoldable pub compute_returned_amount : ℕ → Store → ℤ
compute_returned_amount order_id s =
    sum_where (λ r. r.order_id == order_id) (λ r. r.total_amount) s.sales_returns

-- `computeCreditUsed` of dealer-wallet.ts.
unfoldable pub compute_credit_used : ℕ → Store → ℤ
compute_credit_used invoice_id s =
    sum_where (λ u. u.invoice_id == invoice_id) (λ u. u.amount) s.credit_uses

unfoldable pub derive_payment_status : ℤ → ℤ → PaymentStatus
derive_payment_status effective_paid net_grand_total =
    if leb_ℤ net_grand_total effective_paid
    then paid
    else if gtb_ℤ effective_paid (pos 0)
    then partial
    else unpaid

-- `tx.payment.findMany({ where: { invoiceId } })`
unfoldable pub payments_of : ℕ → Store → List Payment
payments_of invoice_id s = rows_where (λ _ p. same_id p.invoice_id (some invoice_id)) s.payments

-- The status that the rows of a state give to an invoice.
unfoldable pub current_status : Invoice → ℕ → Store → PaymentStatus
unfolding compute_effective_paid compute_credit_used compute_returned_amount payments_of
    derive_payment_status
current_status invoice id s =
    derive_payment_status (compute_effective_paid (payments_of id s) +ℤ compute_credit_used id s)
      (invoice.grand_total -ℤ compute_returned_amount invoice.order_id s)

unfoldable pub recompute_invoice_payment_status : ℕ → M PaymentStatus
recompute_invoice_payment_status id = do
  invoice ← or_throw (← gets (λ s. lookup id s.invoices)) record_not_found
  status ← gets (current_status invoice id)
  modify (λ s. record s {
    invoices = update id (record invoice { payment_status = status }) s.invoices;
  })
  pure status
