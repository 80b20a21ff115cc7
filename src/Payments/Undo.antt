-- ===== src/Payments/Undo.antt =====
-- PaymentsService.undo: taking back the newest change of a payment.
use electro_mart_backend.Prelude.{ℕ, not, ◌||◌, Option, none, some, same_id, if◌then◌else◌, is_some}
use electro_mart_backend.Result.{
  already_undone, nothing_to_undo, invoice_gone, payment_exists, payment_is_deleted,
}
use electro_mart_backend.Rows.{
  Snapshot, Payment, PaymentRevision, RevisionAction, deleted, undo, restored, of_payment, absent,
}
use electro_mart_backend.Table.{lookup, insert, update}
use electro_mart_backend.Store.{
  Env, M, pure, gets, guard, throw, modify, or_throw, log, Activity, ◌>>=◌, ◌>>◌,
}
use electro_mart_backend.Wallet.{assert_wallet_not_overdrawn}
use electro_mart_backend.Payments.Checks.{assert_fits_invoice, settle_financials}
use electro_mart_backend.Payments.Revisions.{
  find_collection, relink_collection, record_revision, latest_change, invoice_unchanged_since,
}
use electro_mart_backend.Payments.Changes.{put_payment}

-- The newest change of this payment that `undo` may take back, or the reason why there is none.
unfoldable pub change_to_undo : ℕ → Option ℕ → M (ℕ × PaymentRevision)
unfolding latest_change
change_to_undo id expected = do
  latest ← gets (λ s. latest_change id s.revisions)
  guard
      (not (is_some expected)
        || same_id (elim latest [ none ↦ none | some (r, _) ↦ some r ]) expected)
      already_undone
  or_throw latest nothing_to_undo

-- The row that stands again: the snapshot's, but over a row that is there still the fields `invoiceId`,
-- `dealerId` and `createdAt` stay as they are.
unfoldable pub restored_row : Payment → Option Payment → Payment
restored_row before none = before
restored_row before (some now) = record before {
  invoice_id = now.invoice_id;
  dealer_id = now.dealer_id;
  created_at = now.created_at;
}

-- The row that a change put back, written over the current one, or created anew.
unfoldable pub put_back : ℕ → Payment → Option Payment → Option ℕ → M (Unit {0})
put_back id before none collection = do
  modify (λ s. record s { payments = insert id (restored_row before none) s.payments })
  elim collection [
    | none ↦ pure tt
    | some c ↦ modify (λ s. record s { collections = relink_collection c id s.collections })
  ]
put_back id before (some now) collection = put_payment id (restored_row before (some now))

-- The state that an undo replaces.
unfoldable pub snapshot_now : Option Payment → Option ℕ → Snapshot
snapshot_now none collection = absent
snapshot_now (some p) collection = of_payment p collection

-- The checks of `undo` on the revision's kind and on whether the payment still exists.
unfoldable pub check_presence : RevisionAction → Option Payment → M (Unit {0})
check_presence deleted (some _) = throw payment_exists
check_presence deleted none = pure tt
check_presence _ none = throw payment_is_deleted
check_presence _ (some _) = pure tt

unfoldable pub mark_undone : ℕ → PaymentRevision → ℕ → M (Unit {0})
mark_undone revision_id r now = modify (λ s. record s {
  revisions = update revision_id (record r { undone_at = some now }) s.revisions;
})

-- `undo` once the change is found and its snapshot read: `before` is the row to put back.
unfoldable pub undo_change : ℕ → ℕ → PaymentRevision → Payment → Option ℕ → Env → M (Unit {0})
undo_change id revision_id r before collection env = do
  invoice_id ← or_throw before.invoice_id invoice_gone
  invoice ← or_throw (← gets (λ s. lookup invoice_id s.invoices)) invoice_gone
  current ← gets (λ s. lookup id s.payments)
  check_presence r.action current
  untouched ← gets (invoice_unchanged_since invoice_id invoice id r.created_at)
  assert_fits_invoice invoice_id invoice id before.amount before.mode before.cheque_status untouched
  now_collection ← gets (λ s. find_collection id s.collections)
  record_revision env.revision_id id (some invoice_id) (if is_some current then undo else restored)
      (snapshot_now current now_collection) env.now
  put_back id before current collection
  settle_financials invoice_id before.dealer_id current (some (restored_row before current))
  assert_wallet_not_overdrawn before.dealer_id
  mark_undone revision_id r env.now
  log Activity.undid_payment_change id

-- By the snapshot of the found change. `recordRevision` writes a row; of the mark `absent` no row is
-- made, since its invoice is not found.
unfoldable pub undo_snapshot : ℕ → ℕ → PaymentRevision → Snapshot → Env → M (Unit {0})
unfolding undo_change
undo_snapshot id revision_id r absent env = throw invoice_gone
undo_snapshot id revision_id r (of_payment before collection) env =
    undo_change id revision_id r before collection env

-- The `undo` of the service.
unfoldable pub undo_last : ℕ → Option ℕ → Env → M (Unit {0})
unfolding change_to_undo undo_snapshot
undo_last id expected env = do
  (revision_id, r) ← change_to_undo id expected
  undo_snapshot id revision_id r r.snapshot env
