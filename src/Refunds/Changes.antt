-- ===== src/Refunds/Changes.antt =====
-- The operations of RefundsService that write.
use electro_mart_backend.Prelude.{
  ℕ, Bool, not, ◌&&◌, ◌||◌, Option, none, some, ◌∷◌, if◌then◌else◌, is_some, any,
}
use electro_mart_backend.Prelude.Int.{ℤ, pos, ◌-ℤ◌, gtb_ℤ, eqb_ℤ, neg_ℤ}
use electro_mart_backend.Result.{
  refund_not_found, party_required, possible_duplicate, refund_cancelled, only_supplier_refunds,
  not_a_cheque, already_cancelled, not_cancelled,
}
use electro_mart_backend.Cheques.{is_cheque, ChequeStatus, ChequeKind, assert_cheque_transition}
use electro_mart_backend.Clock.{assert_not_future_business_date}
use electro_mart_backend.Rows.{
  Refund, RefundParty, LedgerAction, LedgerEntity, updated, cheque_status, cancelled, restored,
}
use electro_mart_backend.Table.{Table, lookup, insert, update}
use electro_mart_backend.Store.{
  Env, M, pure, gets, guard, lift, modify, or_throw, increment_balance, log, Activity, ◌>>=◌, ◌>>◌,
}
use electro_mart_backend.Wallet.{is_dealer_party}
use electro_mart_backend.Refunds.Form.{
  RefundForm, is_effective_refund, effective_amount, require_cheque_details, new_refund,
  edited_refund,
}
use electro_mart_backend.Refunds.Credit.{
  assert_credit_covers, lock_party, resolve_purchase, is_duplicate_refund,
}

-- `recordLedgerRevision` of src/common/utils/ledger-revision.ts.
unfoldable pub record_ledger_revision : LedgerEntity → ℕ → LedgerAction → M (Unit {0})
record_ledger_revision entity id action = modify (λ s. record s {
  ledger_revisions =
      record { entity = entity; entity_id = id; action = action } ∷ s.ledger_revisions;
})

-- `lockRefund`
abbrev pub find_refund : ℕ → M Refund
find_refund id = do or_throw (← gets (λ s. lookup id s.refunds)) refund_not_found

abbrev pub put_refund : ℕ → Refund → M (Unit {0})
put_refund id r = modify (λ s. record s { refunds = update id r s.refunds })

-- The dealer's balance goes up by what the refund counts for more; a supplier's is derived.
unfoldable pub settle_refund : Option ℕ → ℤ → M (Unit {0})
settle_refund none delta = pure tt
settle_refund (some d) delta = if eqb_ℤ delta (pos 0) then pure tt else increment_balance d delta

-- A change that counts for more is checked against the credit that the party holds.
unfoldable pub check_increase : Refund → ℤ → M (Unit {0})
check_increase r delta =
    if gtb_ℤ delta (pos 0) then assert_credit_covers r.dealer_id r.supplier_id delta else pure tt

any_refund : (Refund → Bool) → Table Refund → Bool
any_refund p = any (λ e. p e.1)

-- `create`: the party's id is the dealer's or the supplier's, by the party of the request.
unfoldable pub create : RefundForm → RefundParty → Option ℕ → Option ℕ → Bool → Env → M (Unit {0})
unfolding any_refund
create form party dto_dealer dto_supplier confirm_duplicate env = do
  lift (assert_not_future_business_date form.refund_date env.now)
  lift (require_cheque_details form)
  let dealer_id = if is_dealer_party party then dto_dealer else none
  let supplier_id = if is_dealer_party party then none else dto_supplier
  guard (is_some dealer_id || is_some supplier_id) party_required
  lock_party dealer_id supplier_id
  purchase_id ← resolve_purchase form.purchase_id supplier_id
  refunds ← gets (λ s. s.refunds)
  guard
      (confirm_duplicate
        || not (any_refund (is_duplicate_refund form party dealer_id supplier_id env.now) refunds))
      possible_duplicate
  assert_credit_covers dealer_id supplier_id form.amount
  modify (λ s. record s {
    refunds =
        insert env.new_id (new_refund form party dealer_id supplier_id purchase_id env.now)
          s.refunds;
  })
  (elim dealer_id [ none ↦ pure tt | some d ↦ increment_balance d form.amount ])
  log Activity.recorded_refund env.new_id

-- The `update` of the service.
unfoldable pub edit : ℕ → RefundForm → Env → M (Unit {0})
edit id form env = do
  lift (assert_not_future_business_date form.refund_date env.now)
  lift (require_cheque_details form)
  r ← find_refund id
  guard (not (is_some r.cancelled_at)) refund_cancelled
  lock_party r.dealer_id r.supplier_id
  guard (not (is_some form.purchase_id && is_dealer_party r.party)) only_supplier_refunds
  purchase_id ← resolve_purchase form.purchase_id r.supplier_id
  let new = edited_refund form purchase_id r env.now
  check_increase r (effective_amount new -ℤ effective_amount r)
  record_ledger_revision LedgerEntity.refund id updated
  put_refund id new
  settle_refund r.dealer_id (effective_amount new -ℤ effective_amount r)
  log Activity.updated_refund id

unfoldable pub restamped_refund : Refund → ChequeStatus → ℕ → Refund
restamped_refund r status now = record r {
  cheque_status = some status;
  cheque_status_updated_at = some now;
}

unfoldable pub update_cheque_status : ℕ → ChequeStatus → Env → M (Unit {0})
update_cheque_status id status env = do
  r ← find_refund id
  guard (is_cheque r.mode) not_a_cheque
  guard (not (is_some r.cancelled_at)) refund_cancelled
  lift (
      assert_cheque_transition
        (if is_dealer_party r.party then ChequeKind.refund_paid else ChequeKind.refund_received)
        r.cheque_status status r.cheque_status_updated_at env.now)
  lock_party r.dealer_id r.supplier_id
  let new = restamped_refund r status env.now
  check_increase r (effective_amount new -ℤ effective_amount r)
  record_ledger_revision LedgerEntity.refund id cheque_status
  put_refund id new
  settle_refund r.dealer_id (effective_amount new -ℤ effective_amount r)
  log Activity.updated_refund_cheque_status id

unfoldable pub cancelled_refund : Refund → Option ℕ → Refund
cancelled_refund r at = record r { cancelled_at = at }

unfoldable pub cancel : ℕ → Env → M (Unit {0})
cancel id env = do
  r ← find_refund id
  guard (not (is_some r.cancelled_at)) already_cancelled
  lock_party r.dealer_id r.supplier_id
  record_ledger_revision LedgerEntity.refund id cancelled
  put_refund id (cancelled_refund r (some env.now))
  (if is_effective_refund r
      then (elim r.dealer_id [ none ↦ pure tt | some d ↦ increment_balance d (neg_ℤ r.amount) ])
      else pure tt)
  log Activity.cancelled_refund id

unfoldable pub restore : ℕ → Env → M (Unit {0})
restore id env = do
  r ← find_refund id
  guard (is_some r.cancelled_at) not_cancelled
  lock_party r.dealer_id r.supplier_id
  let new = cancelled_refund r none
  check_increase r (effective_amount new)
  record_ledger_revision LedgerEntity.refund id restored
  put_refund id new
  settle_refund r.dealer_id (effective_amount new)
  log Activity.restored_refund id
