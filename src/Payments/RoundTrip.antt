-- ===== src/Payments/RoundTrip.antt =====
-- An edit of a payment can be taken back.
use electro_mart_backend.Prelude.{
  ℕ, ◌≡◌, refl, sym, ap, ◌∙◌, Option, none, some, ◌≤◌, ==_refl, arith, Bool-cases, Option-cases,
  inl, inr,
}
use electro_mart_backend.Prelude.Int.{ℤ, pos, ◌-ℤ◌, eqb_ℤ}
use electro_mart_backend.Rows.{Invoice, Payment, PaymentRevision, updated, of_payment}
use electro_mart_backend.Table.{
  Table, lookup, insert, update, lookup-update_self, update-update_same,
}
use electro_mart_backend.Table.Predicates.{AllRows}
use electro_mart_backend.Store.{Store, Env, log, increment_balance}
use electro_mart_backend.Store.After.{
  After, After-mono, next-After, lift-After, or_throw-After, read-After, done,
}
use electro_mart_backend.Invoicing.{recompute_invoice_payment_status}
use electro_mart_backend.Payments.Form.{PaymentForm, edited_payment}
use electro_mart_backend.Payments.Checks.{settle_financials, effective_amount}
use electro_mart_backend.Payments.Revisions.{
  latest_change, can_undo, find_collection, record_revision,
}
use electro_mart_backend.Payments.Changes.{edit, save_before}
use electro_mart_backend.Payments.Undo.{
  restored_row, undo_change, undo_snapshot, undo_last, mark_undone,
}
use electro_mart_backend.Payments.Owners.{latest_change-row}
use electro_mart_backend.Payments.Undoing.{put_row, put_back-After}
use electro_mart_backend.Payments.Reads.{
  invoice_of-Reads, fits-Reads, overdrawn-Reads, check_presence-Reads, change_to_undo-Reads,
}

-- Settling leaves the payments and their history alone.
abbrev SameHistory : Store → Store → Type 0
SameHistory s t = (t.payments ≡ s.payments) × (t.revisions ≡ s.revisions)

increment-SameHistory :
    (d : ℕ) (x : ℤ) (s t : Store)
    → SameHistory s t
    → After (increment_balance d x t) (λ _ u. SameHistory s u)
unfolding increment_balance
increment-SameHistory d x s t same = or_throw-After _ _ _ _ (λ _ _. done same)

recompute-SameHistory :
    (id : ℕ) (s : Store) → After (recompute_invoice_payment_status id s) (λ _ t. SameHistory s t)
unfolding recompute_invoice_payment_status
recompute-SameHistory id s = or_throw-After _ _ _ _ (λ _ _. done (refl, refl))

settle-SameHistory :
    (id d : ℕ) (before after : Option Payment) (s : Store)
    → After (settle_financials id d before after s) (λ _ t. SameHistory s t)
unfolding settle_financials
settle-SameHistory id d before after s =
    let delta = effective_amount before -ℤ effective_amount after in
    next-After (recompute-SameHistory id s) (λ _ t same. elim (Bool-cases (eqb_ℤ delta (pos 0))) [
      | inl zero ↦ rw zero (done same)
      | inr nonzero ↦ rw nonzero (increment-SameHistory d delta s t same)
    ])

-- The before-image that an edit saves.
abbrev saved : ℕ → Payment → Option ℕ → ℕ → PaymentRevision
saved id p collection now = record {
  payment_id = id;
  invoice_id = p.invoice_id;
  action = updated;
  snapshot = of_payment p collection;
  created_at = now;
  undone_at = none;
}

-- What an edit leaves: the new row, and the old one in the history.
abbrev IsEdited : ℕ → PaymentForm → Env → Store → Store → Type 0
IsEdited id form env s t =
    (p : Payment) × (collection : Option ℕ) × (lookup id s.payments ≡ some p)
    × (t.payments ≡ update id (edited_payment form p env.now) s.payments)
    × (t.revisions ≡ insert env.revision_id (saved id p collection env.now) s.revisions)

edit-IsEdited :
    (id : ℕ) (form : PaymentForm) (env : Env) (s : Store)
    → After (edit id form env s) (λ _ t. IsEdited id form env s t)
unfolding edit save_before record_revision log
edit-IsEdited id form env s = lift-After _ _ _ (λ _ _. lift-After _ _ _ (λ _ _.
    or_throw-After _ _ _ _ (λ (p : Payment) found.
      read-After _ (invoice_of-Reads p s) (λ (invoice_id, invoice) _.
        read-After _ (fits-Reads invoice_id invoice id form.amount form.mode _ _ s) (λ _ _.
          next-After (settle-SameHistory invoice_id p.dealer_id _ _ _) (λ _ t same.
            read-After _ (overdrawn-Reads p.dealer_id t)
              (λ _ _. done (p, find_collection id s.collections, found, same.0, same.1))))))))

-- The newest change is the one just saved, if none is dated later.
latest-insert :
    (id rid : ℕ) (p : Payment) (collection : Option ℕ) (now : ℕ) (t : Table PaymentRevision)
    → AllRows (λ _ r. r.created_at ≤ now) t
    → latest_change id (insert rid (saved id p collection now) t)
      ≡ some (rid, saved id p collection now)
unfolding latest_change can_undo insert
latest-insert id rid p collection now t early = elim (Option-cases (latest_change id t)) [
  | inl nothing ↦ rw (==_refl id, nothing) refl
  | inr ((k, q), newest) ↦
      let (before, same) = latest_change-row (λ _ r. r.created_at ≤ now) id t k q early newest in
      rw (==_refl id, newest) (ground arith)
]

put_row-found :
    (id : ℕ) (before now : Payment) (o : Option Payment) (t : Table Payment)
    → o ≡ some now
    → put_row id before o t ≡ update id (restored_row before (some now)) t
put_row-found id before now o t e = rw e refl

undo_change-payments :
    (id rid : ℕ) (r : PaymentRevision) (before now : Payment) (collection : Option ℕ) (env : Env)
    (s : Store)
    → lookup id s.payments ≡ some now
    → After
        (undo_change id rid r before collection env s)
        (λ _ t. t.payments ≡ update id (restored_row before (some now)) s.payments)
unfolding undo_change record_revision mark_undone log
undo_change-payments id rid r before now collection env s found =
    let current = lookup id s.payments in
    or_throw-After _ _ _ _ (λ (invoice_id : ℕ) _. or_throw-After _ _ _ _ (λ (invoice : Invoice) _.
      read-After _ (check_presence-Reads r.action current s) (λ _ _.
        read-After _ (fits-Reads invoice_id invoice id before.amount before.mode _ _ s) (λ _ _.
          next-After (put_back-After id before current collection _) (λ _ t (links, e).
            next-After (settle-SameHistory invoice_id before.dealer_id _ _ t) (λ _ u same.
              read-After _ (overdrawn-Reads before.dealer_id u) (λ _ _. done (
                same.0
                ∙ ap (λ x. x.payments) e
                ∙ put_row-found id before now current s.payments found))))))))

-- Over an edited row, the fields that a payment keeps for good are those of the row from before.
restored-edited :
    (form : PaymentForm) (p : Payment) (now : ℕ)
    → restored_row p (some (edited_payment form p now)) ≡ p
unfolding restored_row edited_payment
restored-edited form p now = refl

payments_again :
    (id now : ℕ) (form : PaymentForm) (p : Payment) (t u : Table Payment)
    → lookup id t ≡ some p
    → u ≡ update id (edited_payment form p now) t
    → update id (restored_row p (some (edited_payment form p now))) u ≡ t
payments_again id now form p t u found e =
    rw (e, restored-edited form p now) (update-update_same id (edited_payment form p now) p t found)

edited_row :
    (id now : ℕ) (form : PaymentForm) (p : Payment) (t u : Table Payment)
    → lookup id t ≡ some p
    → u ≡ update id (edited_payment form p now) t
    → lookup id u ≡ some (edited_payment form p now)
edited_row id now form p t u found e =
    rw e (lookup-update_self id (edited_payment form p now) p t found)

same_change : (a b : ℕ × PaymentRevision) → some a ≡ some b → a ≡ b
same_change a b e = cc

-- The undo finds the change that was saved.
undo_saved :
    (id rid : ℕ) (p now : Payment) (collection : Option ℕ) (at : ℕ) (env : Env) (s : Store)
    → latest_change id s.revisions ≡ some (rid, saved id p collection at)
    → lookup id s.payments ≡ some now
    → After
        (undo_last id none env s)
        (λ _ t. t.payments ≡ update id (restored_row p (some now)) s.payments)
unfolding undo_last undo_snapshot
undo_saved id rid p now collection at env s newest found =
    read-After _ (change_to_undo-Reads id none s) (λ r again.
      let same : r ≡ (rid, saved id p collection at) = same_change r _ (sym again ∙ newest) in
      rw same (undo_change-payments id rid (saved id p collection at) p now collection env s found))

-- Editing a payment and undoing the edit, at whatever times, gives back the table of payments from
-- before, if both commit and no change in the history is dated after the edit.
pub undo_last-edit :
    (id : ℕ) (form : PaymentForm) (env later : Env) (s : Store)
    → AllRows (λ _ r. r.created_at ≤ env.now) s.revisions
    → After
        (edit id form env s)
        (λ _ t. After (undo_last id none later t) (λ _ u. u.payments ≡ s.payments))
undo_last-edit id form env later s early =
    After-mono
      (λ _ t (p, collection, found, now, history).
        After-mono
          (λ _ u back. back ∙ payments_again id env.now form p s.payments t.payments found now)
          (undo_saved id env.revision_id p (edited_payment form p env.now) collection env.now later
            t
            (ap (latest_change id) history
              ∙ latest-insert id env.revision_id p collection env.now s.revisions early)
            (edited_row id env.now form p s.payments t.payments found now)))
      (edit-IsEdited id form env s)
