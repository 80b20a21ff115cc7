-- ===== src/Payments/Changes.antt =====
-- The operations of PaymentsService that write.
use electro_mart_backend.Prelude.{
  ℕ, Bool, true, false, not, ◌&&◌, ◌||◌, none, some, if◌then◌else◌, any,
}
use electro_mart_backend.Prelude.Int.{ℤ, pos, ◌+ℤ◌, ◌-ℤ◌, gtb_ℤ, neg_ℤ}
use electro_mart_backend.Result.{
  payment_not_found, invoice_not_found, possible_duplicate, exceeds_invoice_balance, not_a_cheque,
}
use electro_mart_backend.Cheques.{
  is_cheque, ChequeStatus, returned, ChequeKind, assert_cheque_transition,
}
use electro_mart_backend.Clock.{assert_not_future_business_date}
use electro_mart_backend.Rows.{Payment, RevisionAction, updated, cheque_status, deleted, of_payment}
use electro_mart_backend.Table.{lookup, insert, update, delete}
use electro_mart_backend.Store.{
  Store, Env, M, pure, gets, guard, lift, modify, or_throw, increment_balance, log, Activity, ◌>>=◌,
  ◌>>◌,
}
use electro_mart_backend.Invoicing.{
  is_effective_payment, compute_effective_paid, compute_credit_used, payments_of,
  recompute_invoice_payment_status,
}
use electro_mart_backend.Wallet.{assert_wallet_not_overdrawn}
use electro_mart_backend.Payments.Form.{
  PaymentForm, validate_cheque_fields, new_payment, edited_status, edited_payment,
}
use electro_mart_backend.Payments.Checks.{
  is_duplicate_of, net_grand_total, assert_fits_invoice, settle_financials, invoice_of,
}
use electro_mart_backend.Payments.Revisions.{find_collection, unlink_collections, record_revision}

-- What the payment would put on the invoice above its net total.
unfoldable pub excess_of : ℕ → ℤ → ℤ → Store → ℤ
unfolding compute_effective_paid payments_of compute_credit_used
excess_of invoice_id amount net s =
    compute_effective_paid (payments_of invoice_id s)
    +ℤ compute_credit_used invoice_id s
    +ℤ amount
    -ℤ net

-- The writes of `createInTransaction`, once its checks have passed.
unfoldable pub write_payment : PaymentForm → ℕ → ℕ → Env → M (Unit {0})
write_payment form invoice_id dealer_id env = do
  modify (λ s. record s {
    payments = insert env.new_id (new_payment form invoice_id dealer_id env.now) s.payments;
  })
  _ ← recompute_invoice_payment_status invoice_id
  increment_balance dealer_id (neg_ℤ form.amount)
  log Activity.recorded_payment env.new_id

-- `create`, and `createInTransaction` that it runs.
unfoldable pub create : PaymentForm → ℕ → Bool → Env → M (Unit {0})
unfolding excess_of net_grand_total payments_of
create form invoice_id confirm_duplicate env = do
  lift (validate_cheque_fields form env.now)
  lift (assert_not_future_business_date form.payment_date env.now)
  invoice ← or_throw (← gets (λ s. lookup invoice_id s.invoices)) invoice_not_found
  payments ← gets (payments_of invoice_id)
  guard (confirm_duplicate || not (any (is_duplicate_of form env.now) payments)) possible_duplicate
  net ← gets (net_grand_total invoice)
  excess ← gets (excess_of invoice_id form.amount net)
  guard (not (gtb_ℤ excess (pos 0) && not form.excess_to_wallet)) exceeds_invoice_balance
  write_payment form invoice_id invoice.dealer_id env

-- `tx.payment.findUnique`
abbrev pub find_payment : ℕ → M Payment
find_payment id = do or_throw (← gets (λ s. lookup id s.payments)) payment_not_found

abbrev pub put_payment : ℕ → Payment → M (Unit {0})
put_payment id p = modify (λ s. record s { payments = update id p s.payments })

-- `recordRevision`: the row as it is now, with its collection.
unfoldable pub save_before : ℕ → Payment → RevisionAction → Env → M (Unit {0})
unfolding record_revision
save_before id p action env = do
  collection ← gets (λ s. find_collection id s.collections)
  record_revision env.revision_id id p.invoice_id action (of_payment p collection) env.now

-- The `update` of the service.
unfoldable pub edit : ℕ → PaymentForm → Env → M (Unit {0})
edit id form env = do
  lift (validate_cheque_fields form env.now)
  lift (assert_not_future_business_date form.payment_date env.now)
  p ← find_payment id
  (invoice_id, invoice) ← invoice_of p
  assert_fits_invoice invoice_id invoice id form.amount form.mode (edited_status form p)
      form.excess_to_wallet
  save_before id p updated env
  put_payment id (edited_payment form p env.now)
  settle_financials invoice_id p.dealer_id (some p) (some (edited_payment form p env.now))
  assert_wallet_not_overdrawn p.dealer_id
  log Activity.updated_payment id

unfoldable pub remove : ℕ → Env → M (Unit {0})
remove id env = do
  p ← find_payment id
  (invoice_id, invoice) ← invoice_of p
  save_before id p deleted env
  modify (λ s. record s {
    payments = delete id s.payments;
    collections = unlink_collections id s.collections;
  })
  settle_financials invoice_id p.dealer_id (some p) none
  assert_wallet_not_overdrawn p.dealer_id
  log Activity.returned_payment id

abbrev pub is_returned_status : ChequeStatus → Bool
is_returned_status returned = true
is_returned_status _ = false

-- The row that `updateChequeStatus` writes.
unfoldable pub restamped : Payment → ChequeStatus → ℕ → Payment
restamped p status now = record p {
  cheque_status = some status;
  cheque_status_updated_at = some now;
}

unfoldable pub update_cheque_status : ℕ → ChequeStatus → Bool → Env → M (Unit {0})
update_cheque_status id status excess_to_wallet env = do
  p ← find_payment id
  guard (is_cheque p.mode) not_a_cheque
  (invoice_id, invoice) ← invoice_of p
  lift (
      assert_cheque_transition ChequeKind.dealer p.cheque_status status p.cheque_status_updated_at
        env.now)
  (if is_effective_payment p.mode p.cheque_status
      then pure tt
      else assert_fits_invoice invoice_id invoice id p.amount p.mode (some status) excess_to_wallet)
  save_before id p cheque_status env
  put_payment id (restamped p status env.now)
  settle_financials invoice_id p.dealer_id (some p) (some (restamped p status env.now))
  (if is_returned_status status then pure tt else assert_wallet_not_overdrawn p.dealer_id)
  log Activity.updated_payment_cheque_status id
