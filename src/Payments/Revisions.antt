-- ===== src/Payments/Revisions.antt =====
-- The history of a payment: its before-images, and the newest change that can be undone.
use electro_mart_backend.Prelude.{
  ℕ, Bool, true, false, not, ◌&&◌, ◌||◌, Option, none, some, [], ◌∷◌, ◌==◌, leb, ltb, same_id,
  if◌then◌else◌, is_some, any,
}
use electro_mart_backend.Rows.{
  Invoice, PaymentRevision, RevisionAction, updated, cheque_status, deleted, undo, restored,
  Snapshot,
}
use electro_mart_backend.Table.{Table, insert}
use electro_mart_backend.Store.{Store, M, modify}

-- The include of `collectionSubmission`: the rep's collection that this payment came from.
unfoldable pub find_collection : ℕ → Table (Option ℕ) → Option ℕ
find_collection payment_id [] = none
find_collection payment_id ((id, result) ∷ t) =
    if same_id result (some payment_id) then some id else find_collection payment_id t

-- `ON DELETE SET NULL` of a payment, on the collections.
unfoldable pub unlink_collections : ℕ → Table (Option ℕ) → Table (Option ℕ)
unlink_collections payment_id [] = []
unlink_collections payment_id ((id, result) ∷ t) =
    (id, if same_id result (some payment_id) then none else result)
    ∷ unlink_collections payment_id t

-- `updateMany({ where: { id, resultingPaymentId: null } })`
unfoldable pub relink_collection : ℕ → ℕ → Table (Option ℕ) → Table (Option ℕ)
relink_collection collection_id payment_id [] = []
relink_collection collection_id payment_id ((id, result) ∷ t) =
    (id, if id == collection_id && not (is_some result) then some payment_id else result)
    ∷ relink_collection collection_id payment_id t

unfoldable pub record_revision : ℕ → ℕ → Option ℕ → RevisionAction → Snapshot → ℕ → M (Unit {0})
record_revision revision_id payment_id invoice_id action snapshot now = modify (λ s. record s {
  revisions =
      insert revision_id
        (record {
          payment_id = payment_id;
          invoice_id = invoice_id;
          action = action;
          snapshot = snapshot;
          created_at = now;
          undone_at = none;
        })
        s.revisions;
})

-- UNDOABLE_ACTIONS
abbrev pub is_undoable : RevisionAction → Bool
is_undoable updated = true
is_undoable cheque_status = true
is_undoable deleted = true
is_undoable undo = false
is_undoable restored = false

abbrev pub is_deletion : RevisionAction → Bool
is_deletion deleted = true
is_deletion _ = false

unfoldable pub can_undo : ℕ → PaymentRevision → Bool
can_undo payment_id r =
    r.payment_id == payment_id && not (is_some r.undone_at) && is_undoable r.action

-- `findFirst({ where, orderBy: { createdAt: 'desc' } })`; of two at the same instant the one written
-- later, which stands first in the table.
unfoldable pub latest_change : ℕ → Table PaymentRevision → Option (ℕ × PaymentRevision)
unfolding can_undo
latest_change payment_id [] = none
latest_change payment_id ((id, r) ∷ t) =
    let rest = latest_change payment_id t in
    if can_undo payment_id r
    then elim rest [
      | none ↦ some (id, r)
      | some (other, q) ↦ if leb q.created_at r.created_at then some (id, r) else some (other, q)
    ]
    else rest

abbrev pub any_row {ℓ} : {V : Type ℓ} → (ℕ → V → Bool) → Table V → Bool
any_row p = any (λ e. p e.0 e.1)

-- Nothing else on the invoice changed after `since`.
unfoldable pub invoice_unchanged_since : ℕ → Invoice → ℕ → ℕ → Store → Bool
invoice_unchanged_since invoice_id invoice payment_id since s = not (
    any_row
      (λ id p.
        same_id p.invoice_id (some invoice_id) && not (id == payment_id) && ltb since p.created_at)
      s.payments
    || any_row
        (λ _ r.
          same_id r.invoice_id (some invoice_id)
          && not (r.payment_id == payment_id)
          && ltb since r.created_at)
        s.revisions
    || any_row (λ _ u. u.invoice_id == invoice_id && ltb since u.created_at) s.credit_uses
    || any_row (λ _ r. r.order_id == invoice.order_id && ltb since r.created_at) s.sales_returns)
