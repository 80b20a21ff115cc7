-- ===== src/Payments/Undoing.antt =====
-- Undoing a change keeps the accounting contract, and a whole history of requests does.
use electro_mart_backend.Prelude.{ℕ, ◌≡◌, refl, Option, none, some, ◌∙◌, sym}
use electro_mart_backend.Rows.{Invoice, Payment, PaymentRevision, Snapshot, of_payment, absent}
use electro_mart_backend.Table.{Table, insert, update, lookup}
use electro_mart_backend.Table.Predicates.{AllRows-insert, AllRows-update}
use electro_mart_backend.Result.{invoice_gone}
use electro_mart_backend.Store.{Store, Env, log}
use electro_mart_backend.Store.After.{
  rolls_back, After, next-After, or_throw-After, read-After, both-After, After-mono, done,
}
use electro_mart_backend.Payments.Undo.{
  undo_snapshot, restored_row, put_back, snapshot_now, mark_undone, undo_change, undo_last,
}
use electro_mart_backend.Payments.Owners.{IsOf, OwnsPayment, OwnsRevision, latest_change-row}
use electro_mart_backend.Payments.Consistency.{
  IsConsistent, change-IsConsistent, Keeps-IsOwned, mine,
}
use electro_mart_backend.Payments.Checks.{settle_financials}
use electro_mart_backend.Payments.Balance.{revival-IsBalanced}
use electro_mart_backend.Payments.Keeps.{settle-Keeps}
use electro_mart_backend.Payments.Revisions.{find_collection, record_revision}
use electro_mart_backend.Payments.Reads.{
  overdrawn-Reads, fits-Reads, check_presence-Reads, change_to_undo-Reads,
}

-- The table with the row of a payment put back.
abbrev pub put_row : ℕ → Payment → Option Payment → Table Payment → Table Payment
put_row id before none t = insert id before t
put_row id before (some now) t = update id (restored_row before (some now)) t

pub put_back-After :
    (id : ℕ) (before : Payment) (current : Option Payment) (collection : Option ℕ) (s : Store)
    → After (put_back id before current collection s) (λ _ t.
      (links : Table (Option ℕ)) × (t
        ≡ record s { payments = put_row id before current s.payments; collections = links }))
unfolding put_back restored_row
put_back-After id before none none s = done (s.collections, refl)
put_back-After id before none (some c) s = done (_, refl)
put_back-After id before (some now) c s = done (s.collections, refl)

module _ (owner holder : ℕ → ℕ) where
  revival-IsConsistent :
      (id invoice_id : ℕ) (p : Payment) (s : Store) (r : PaymentRevision) (rid : ℕ)
      (links : Table (Option ℕ))
      → IsConsistent owner holder s
      → p.dealer_id ≡ owner id
      → OwnsRevision owner holder rid r
      → After
          (settle_financials invoice_id p.dealer_id none (some p) (record s {
            payments = insert id p s.payments;
            revisions = insert rid r s.revisions;
            collections = links;
          }))
          (λ _ t. IsConsistent owner holder t)
  revival-IsConsistent id invoice_id p s r rid links (b, (op, or, oi)) own owns =
      let s1 : Store = record s {
        payments = insert id p s.payments;
        revisions = insert rid r s.revisions;
        collections = links;
      } in
      After-mono
        (λ _ t both. (
          both.0,
          Keeps-IsOwned owner holder s1 t both.1 (
            AllRows-insert (OwnsPayment owner holder) id p s.payments op own,
            AllRows-insert (OwnsRevision owner holder) rid r s.revisions or owns,
            oi,
          ),
        ))
        (both-After (revival-IsBalanced id invoice_id p s (insert rid r s.revisions) links b)
          (settle-Keeps holder invoice_id p.dealer_id none (some p) s1 oi))

  -- Settling after a row is put back, whether or not one was there.
  put_row-IsConsistent :
      (id invoice_id : ℕ) (before : Payment) (current : Option Payment) (s : Store)
      (r : PaymentRevision) (rid : ℕ) (links : Table (Option ℕ)) (t : Store)
      → t ≡ record s {
        payments = put_row id before current s.payments;
        revisions = insert rid r s.revisions;
        collections = links;
      }
      → IsConsistent owner holder s
      → lookup id s.payments ≡ current
      → before.dealer_id ≡ owner id
      → OwnsRevision owner holder rid r
      → After
          (settle_financials invoice_id before.dealer_id current
            (some (restored_row before current))
            t)
          (λ _ t. IsConsistent owner holder t)
  unfolding restored_row
  put_row-IsConsistent id invoice_id before none s r rid links t put c e own owns =
      rw put (revival-IsConsistent id invoice_id before s r rid links c own owns)
  put_row-IsConsistent id invoice_id before (some now) s r rid links t put c e own owns =
      let same : now.dealer_id ≡ before.dealer_id = mine owner holder id now s c e ∙ sym own in
      rw (put, ← same)
        (change-IsConsistent owner holder id invoice_id now (restored_row before (some now))
          (record s { collections = links }) r rid c e refl owns)

  mark_undone-IsConsistent :
      (rid : ℕ) (r : PaymentRevision) (now : ℕ) (s : Store)
      → IsConsistent owner holder s
      → OwnsRevision owner holder rid r
      → IsConsistent owner holder
          (record s { revisions = update rid (record r { undone_at = some now }) s.revisions })
  mark_undone-IsConsistent rid r now s (b, (op, or, oi)) owns = (
    b,
    (
      op,
      AllRows-update (OwnsRevision owner holder) rid (record r { undone_at = some now }) s.revisions
          or owns,
      oi,
    ),
  )

  snapshot_now-IsOf :
      (id : ℕ) (current : Option Payment) (collection : Option ℕ) (s : Store)
      → IsConsistent owner holder s
      → lookup id s.payments ≡ current
      → IsOf (owner id) (snapshot_now current collection)
  unfolding snapshot_now
  snapshot_now-IsOf id none collection s c e = tt
  snapshot_now-IsOf id (some p) collection s c e = mine owner holder id p s c e

  undo_change-IsConsistent :
      (id rid : ℕ) (r : PaymentRevision) (before : Payment) (collection : Option ℕ) (env : Env)
      (s : Store)
      → IsConsistent owner holder s
      → before.dealer_id ≡ owner id
      → OwnsRevision owner holder rid r
      → After (undo_change id rid r before collection env s) (λ _ t. IsConsistent owner holder t)
  unfolding undo_change record_revision mark_undone log
  undo_change-IsConsistent id rid r before collection env s c own owns =
      let current = lookup id s.payments in
      or_throw-After _ _ _ _ λ (invoice_id : ℕ) _. or_throw-After _ _ _ _ λ (invoice : Invoice) _.
        read-After _ (check_presence-Reads r.action current s) λ _ _.
          read-After _ (fits-Reads invoice_id invoice id before.amount before.mode _ _ s) λ _ _.
            next-After (put_back-After id before current collection _) λ _ t (links, e).
              next-After
                (put_row-IsConsistent id invoice_id before current s _ env.revision_id links t e c
                  refl own
                  (snapshot_now-IsOf id current (find_collection id s.collections) s c refl))
                λ _ u q.
                  read-After _ (overdrawn-Reads before.dealer_id u)
                    λ _ _. done (mark_undone-IsConsistent rid r env.now u q owns)

  -- By what the snapshot of the found change is.
  undo_found :
      (id rid : ℕ) (r : PaymentRevision) (shot : Snapshot) (env : Env) (s : Store)
      → IsConsistent owner holder s
      → IsOf (owner id) shot
      → OwnsRevision owner holder rid r
      → After (undo_snapshot id rid r shot env s) (λ _ t. IsConsistent owner holder t)
  unfolding undo_snapshot
  undo_found id rid r absent env s c own owns = rolls_back invoice_gone refl
  undo_found id rid r (of_payment before collection) env s c own owns =
      undo_change-IsConsistent id rid r before collection env s c own owns

  pub undo_last-IsConsistent :
      (id : ℕ) (expected : Option ℕ) (env : Env) (s : Store)
      → IsConsistent owner holder s
      → After (undo_last id expected env s) (λ _ t. IsConsistent owner holder t)
  unfolding undo_last
  undo_last-IsConsistent id expected env s c =
      read-After _ (change_to_undo-Reads id expected s) λ (rid, r) found.
        let (owns, same) =
          latest_change-row (OwnsRevision owner holder) id s.revisions rid r c.1.1 found in
        undo_found id rid r r.snapshot env s c (rw same at owns) owns
