-- ===== src/Payments/Checks.antt =====
-- What PaymentsService reads before and after it writes: probable duplicates, the room on an invoice,
-- and the settling of the dealer's balance.
use text.Mathlib.Text.{◌==◌ as str_eq}
use electro_mart_backend.Prelude.{
  ℕ, Bool, true, false, not, ◌&&◌, ◌||◌, Option, none, some, List, String, ◌==◌, leb, ltb, same_id,
  if◌then◌else◌,
}
use electro_mart_backend.Prelude.Int.{ℤ, pos, ◌+ℤ◌, ◌-ℤ◌, gtb_ℤ, eqb_ℤ}
use electro_mart_backend.Result.{no_invoice, exceeds_invoice_balance}
use electro_mart_backend.Cheques.{PaymentMode, is_cheque, same_mode, ChequeStatus}
use electro_mart_backend.Clock.{
  start_of_business_day, start_of_next_business_day, duplicate_window_start,
}
use electro_mart_backend.Rows.{Invoice, Payment}
use electro_mart_backend.Table.{lookup, rows_where}
use electro_mart_backend.Store.{Store, M, pure, gets, guard, or_throw, increment_balance, ◌>>=◌}
use electro_mart_backend.Invoicing.{
  is_effective_payment, compute_effective_paid, compute_returned_amount, compute_credit_used,
  recompute_invoice_payment_status,
}
use electro_mart_backend.Payments.Form.{PaymentForm}

-- `===` of two nullable texts.
unfoldable pub same_text : Option String → Option String → Bool
same_text none none = true
same_text (some a) (some b) = str_eq a b
same_text _ _ = false

-- The test of `create` for a payment that the form may be a second submission of.
unfoldable pub is_duplicate_of : PaymentForm → ℕ → Payment → Bool
unfolding same_text start_of_business_day start_of_next_business_day duplicate_window_start
is_duplicate_of form now p =
    eqb_ℤ p.amount form.amount
    && same_mode p.mode form.mode
    && (not (is_cheque form.mode) || same_text p.cheque_number form.cheque_number)
    && leb (start_of_business_day form.payment_date) p.payment_date
    && ltb p.payment_date (start_of_next_business_day form.payment_date)
    && leb (duplicate_window_start now) p.created_at

-- The invoice total less what was returned.
unfoldable pub net_grand_total : Invoice → Store → ℤ
unfolding compute_returned_amount
net_grand_total invoice s = invoice.grand_total -ℤ compute_returned_amount invoice.order_id s

-- `where: { invoiceId: invoice.id, id: { not: paymentId } }`
unfoldable pub other_payments : ℕ → ℕ → Store → List Payment
other_payments invoice_id payment_id s =
    rows_where (λ id p. same_id p.invoice_id (some invoice_id) && not (id == payment_id)) s.payments

unfoldable pub fits_invoice : ℕ → Invoice → ℕ → ℤ → Store → Bool
unfolding other_payments compute_effective_paid compute_credit_used net_grand_total
fits_invoice invoice_id invoice payment_id amount s = not (
    gtb_ℤ
      (compute_effective_paid (other_payments invoice_id payment_id s)
        +ℤ compute_credit_used invoice_id s
        +ℤ amount)
      (net_grand_total invoice s))

-- `assertFitsInvoice`, for a payment of this amount, mode and status.
unfoldable pub assert_fits_invoice :
    ℕ → Invoice → ℕ → ℤ → PaymentMode → Option ChequeStatus → Bool → M (Unit {0})
unfolding fits_invoice is_effective_payment
assert_fits_invoice invoice_id invoice payment_id amount mode status allow_excess = do
  fits ← gets (fits_invoice invoice_id invoice payment_id amount)
  guard (allow_excess || not (is_effective_payment mode status) || fits) exceeds_invoice_balance

-- What a payment, if there is one, takes off the dealer's balance.
unfoldable pub effective_amount : Option Payment → ℤ
unfolding is_effective_payment
effective_amount none = pos 0
effective_amount (some p) = if is_effective_payment p.mode p.cheque_status then p.amount else pos 0

unfoldable pub settle_financials : ℕ → ℕ → Option Payment → Option Payment → M (Unit {0})
unfolding effective_amount
settle_financials invoice_id dealer_id before after = do
  _ ← recompute_invoice_payment_status invoice_id
  let delta = effective_amount before -ℤ effective_amount after
  if eqb_ℤ delta (pos 0) then pure tt else increment_balance dealer_id delta

-- `assertHasInvoice`: the payment's invoice id, and the invoice that it names.
unfoldable pub invoice_of : Payment → M (ℕ × Invoice)
invoice_of p = do
  id ← or_throw p.invoice_id no_invoice
  invoice ← or_throw (← gets (λ s. lookup id s.invoices)) no_invoice
  pure (id, invoice)
