-- ===== src/Settlements.antt =====
-- CreditsService (src/credits/credits.service.ts): the settlements paid to suppliers.
pub mod Settled
pub mod Owed
use electro_mart_backend.Prelude.{
  ◌+◌, ℕ, Bool, true, false, not, ◌&&◌, ◌||◌, Option, none, some, String, ◌∷◌, ◌==◌, leb, ltb,
  is_some, if◌then◌else◌, any,
}
use electro_mart_backend.Prelude.Int.{ℤ, eqb_ℤ, gtb_ℤ}
use electro_mart_backend.Result.{
  supplier_not_found, settlement_not_found, cheque_fields_required, possible_duplicate,
  exceeds_supplier_balance, not_a_cheque, record_not_found, changed_meanwhile, not_deletable,
}
use electro_mart_backend.Cheques.{
  PaymentMode, is_cheque, same_mode, ChequeStatus, pending, ChequeKind, same_status,
  assert_cheque_transition,
}
use electro_mart_backend.Clock.{
  day_ms, assert_not_future_business_date, start_of_business_day, start_of_next_business_day,
  duplicate_window_start,
}
use electro_mart_backend.Rows.{SupplierPayment, LedgerEntity, LedgerAction, deleted, cheque_status}
use electro_mart_backend.Table.{lookup, insert, update, delete}
use electro_mart_backend.Store.{
  Store, Env, M, pure, gets, guard, lift, modify, or_throw, log, Activity, ◌>>=◌, ◌>>◌,
}
use electro_mart_backend.Invoicing.{is_returned}
use electro_mart_backend.Payments.Form.{when_cheque}
use electro_mart_backend.Payments.Checks.{same_text}
use electro_mart_backend.Suppliers.Balance.{compute_supplier_balance}
use electro_mart_backend.Refunds.Credit.{find_supplier}
use electro_mart_backend.Refunds.Changes.{record_ledger_revision}

-- CreateSettlementDto; the bank's name is trimmed by the JavaScript runtime, and missing when nothing
-- is left of it.
pub record SettlementForm : Type 0 where
  pub amount : ℤ
  pub mode : PaymentMode
  pub reference : Option String
  pub payment_date : ℕ
  pub cheque_deposit_date : Option ℕ
  pub bank_name : Option String
  pub confirm_duplicate : Bool

-- The filter of the search for a probable duplicate.
unfoldable pub is_duplicate_settlement : SettlementForm → ℕ → ℕ → SupplierPayment → Bool
unfolding start_of_business_day start_of_next_business_day duplicate_window_start
is_duplicate_settlement form supplier_id now p =
    p.supplier_id == supplier_id
    && eqb_ℤ p.amount form.amount
    && same_mode p.mode form.mode
    && same_text p.reference form.reference
    && leb (start_of_business_day form.payment_date) p.payment_date
    && ltb p.payment_date (start_of_next_business_day form.payment_date)
    && leb (duplicate_window_start now) p.created_at

-- The row that `createSettlement` writes.
unfoldable pub new_settlement : SettlementForm → ℕ → ℕ → SupplierPayment
new_settlement form supplier_id now = record {
  supplier_id = supplier_id;
  amount = form.amount;
  mode = form.mode;
  reference = form.reference;
  payment_date = form.payment_date;
  cheque_status = when_cheque form.mode (some pending);
  cheque_status_updated_at = when_cheque form.mode (some now);
  cheque_deposit_date = when_cheque form.mode form.cheque_deposit_date;
  bank_name = when_cheque form.mode form.bank_name;
  created_at = now;
}

abbrev pub has_duplicate : SettlementForm → ℕ → ℕ → Store → Bool
has_duplicate form supplier_id now s =
    any (λ e. is_duplicate_settlement form supplier_id now e.1) s.supplier_payments

unfoldable pub create_settlement : ℕ → SettlementForm → Env → M (Unit {0})
unfolding compute_supplier_balance
create_settlement supplier_id form env = do
  find_supplier supplier_id
  guard (not (is_cheque form.mode && not (is_some form.cheque_deposit_date))) cheque_fields_required
  lift (assert_not_future_business_date form.payment_date env.now)
  duplicate ← gets (has_duplicate form supplier_id env.now)
  guard (form.confirm_duplicate || not duplicate) possible_duplicate
  owed ← gets (compute_supplier_balance (some supplier_id))
  guard (not (gtb_ℤ form.amount owed)) exceeds_supplier_balance
  modify (λ s. record s {
    supplier_payments =
        insert env.new_id (new_settlement form supplier_id env.now) s.supplier_payments;
  })
  log Activity.recorded_settlement env.new_id

-- `chequeStatus: payment.chequeStatus` in a WHERE clause.
abbrev pub same_status? : Option ChequeStatus → Option ChequeStatus → Bool
same_status? none none = true
same_status? (some a) (some b) = same_status a b
same_status? _ _ = false

abbrev pub still_has_status : ℕ → Option ChequeStatus → Store → Bool
still_has_status id status s = elim (lookup id s.supplier_payments) [
  | none ↦ false
  | some p ↦ same_status? p.cheque_status status
]

unfoldable pub restamped_settlement : SupplierPayment → ChequeStatus → ℕ → SupplierPayment
restamped_settlement p status now = record p {
  cheque_status = some status;
  cheque_status_updated_at = some now;
}

-- May the row be counted as paid again?
unfoldable pub assert_still_owed : SupplierPayment → M (Unit {0})
unfolding compute_supplier_balance
assert_still_owed p = do
  owed ← gets (compute_supplier_balance (some p.supplier_id))
  guard (not (is_returned p.cheque_status && gtb_ℤ p.amount owed)) exceeds_supplier_balance

-- The `updateChequeStatus` of the service.
unfoldable pub update_settlement_status : ℕ → ChequeStatus → Env → M (Unit {0})
unfolding assert_still_owed
update_settlement_status id status env = do
  existing ← or_throw (← gets (λ s. lookup id s.supplier_payments)) settlement_not_found
  guard (is_cheque existing.mode) not_a_cheque
  payment ← or_throw (← gets (λ s. lookup id s.supplier_payments)) record_not_found
  lift (
      assert_cheque_transition ChequeKind.supplier payment.cheque_status status
        payment.cheque_status_updated_at env.now)
  assert_still_owed payment
  record_ledger_revision LedgerEntity.supplier_payment id cheque_status
  moved ← gets (still_has_status id payment.cheque_status)
  guard moved changed_meanwhile
  modify (λ s. record s {
    supplier_payments = update id (restamped_settlement payment status env.now) s.supplier_payments;
  })
  log Activity.updated_cheque_status id

unfoldable pub delete_settlement : ℕ → Env → M (Unit {0})
delete_settlement id env = do
  payment ← or_throw (← gets (λ s. lookup id s.supplier_payments)) settlement_not_found
  guard (not (ltb (payment.created_at + day_ms) env.now)) not_deletable
  record_ledger_revision LedgerEntity.supplier_payment id deleted
  modify (λ s. record s { supplier_payments = delete id s.supplier_payments })
  log Activity.deleted_settlement id
