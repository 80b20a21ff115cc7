-- ===== src/Payments/Consistency.antt =====
-- Every request to PaymentsService keeps the accounting contract of the ledger.
use electro_mart_backend.Prelude.{◌∙◌, ℕ, ◌≡◌, Bool, Option, none, some}
use electro_mart_backend.Rows.{Invoice, Payment, PaymentRevision}
use electro_mart_backend.Cheques.{ChequeStatus}
use electro_mart_backend.Table.{Table, insert, update, delete, lookup}
use electro_mart_backend.Table.Predicates.{
  AllRows-lookup, AllRows-insert, AllRows-update, AllRows-delete,
}
use electro_mart_backend.Store.{Store, Env, log}
use electro_mart_backend.Store.After.{
  After-mono, After, next-After, lift-After, or_throw-After, guard-After, read-After, both-After,
  done,
}
use electro_mart_backend.Ledger.{IsBalanced}
use electro_mart_backend.Payments.Form.{PaymentForm, new_payment}
use electro_mart_backend.Payments.Changes.{
  write_payment, create, edit, remove, update_cheque_status, save_before,
}
use electro_mart_backend.Payments.Reads.{
  invoice_of-Reads, fits-Reads, overdrawn-Reads, represented-Reads, unless_returned-Reads,
}
use electro_mart_backend.Payments.Owners.{HoldsInvoice, IsOwned, OwnsPayment, OwnsRevision}
use electro_mart_backend.Payments.Keeps.{Keeps, recompute-Keeps, increment-Keeps, settle-Keeps}
use electro_mart_backend.Payments.Balance.{
  write_payment-IsBalanced, change-IsBalanced, removal-IsBalanced, edited_payment-dealer,
  restamped-dealer, new_payment-dealer,
}
use electro_mart_backend.Payments.Checks.{settle_financials}

module _ (owner holder : ℕ → ℕ) where
  -- The ledger is balanced and no payment has changed hands.
  abbrev pub IsConsistent : Store → Type 0
  IsConsistent s = IsBalanced s × IsOwned owner holder s

  pub Keeps-IsOwned :
      (s t : Store) → Keeps holder s t → IsOwned owner holder s → IsOwned owner holder t
  Keeps-IsOwned s t (kp, kr, ki) (op, or, oi) = (rw kp op, rw kr or, ki)

  -- Putting a row of the same dealer in a payment's place, keeping the history, and settling.
  pub change-IsConsistent :
      (id invoice_id : ℕ) (p new : Payment) (s : Store) (r : PaymentRevision) (rid : ℕ)
      → IsConsistent s
      → lookup id s.payments ≡ some p
      → new.dealer_id ≡ p.dealer_id
      → OwnsRevision owner holder rid r
      → After
          (settle_financials invoice_id p.dealer_id (some p) (some new) (record s {
            payments = update id new s.payments;
            revisions = insert rid r s.revisions;
          }))
          (λ _ t. IsConsistent t)
  change-IsConsistent id invoice_id p new s r rid (b, (op, or, oi)) found own owns =
      let s1 : Store = record s {
        payments = update id new s.payments;
        revisions = insert rid r s.revisions;
      } in
      let mine = AllRows-lookup (OwnsPayment owner holder) id p s.payments op found in
      After-mono
        (λ _ t both. (
          both.0,
          Keeps-IsOwned s1 t both.1 (
            AllRows-update (OwnsPayment owner holder) id new s.payments op (own ∙ mine),
            AllRows-insert (OwnsRevision owner holder) rid r s.revisions or owns,
            oi,
          ),
        ))
        (both-After (change-IsBalanced id invoice_id p new s (insert rid r s.revisions) found own b)
          (settle-Keeps holder invoice_id p.dealer_id (some p) (some new) s1 oi))

  pub removal-IsConsistent :
      (id invoice_id : ℕ) (p : Payment) (s : Store) (r : PaymentRevision) (rid : ℕ)
      (links : Table (Option ℕ))
      → IsConsistent s
      → lookup id s.payments ≡ some p
      → OwnsRevision owner holder rid r
      → After
          (settle_financials invoice_id p.dealer_id (some p) none (record s {
            payments = delete id s.payments;
            revisions = insert rid r s.revisions;
            collections = links;
          }))
          (λ _ t. IsConsistent t)
  removal-IsConsistent id invoice_id p s r rid links (b, (op, or, oi)) found owns =
      let s1 : Store = record s {
        payments = delete id s.payments;
        revisions = insert rid r s.revisions;
        collections = links;
      } in
      After-mono
        (λ _ t both. (
          both.0,
          Keeps-IsOwned s1 t both.1 (
            AllRows-delete (OwnsPayment owner holder) id s.payments op,
            AllRows-insert (OwnsRevision owner holder) rid r s.revisions or owns,
            oi,
          ),
        ))
        (both-After (removal-IsBalanced id invoice_id p s (insert rid r s.revisions) links found b)
          (settle-Keeps holder invoice_id p.dealer_id (some p) none s1 oi))

  pub mine :
      (id : ℕ) (p : Payment) (s : Store)
      → IsConsistent s
      → lookup id s.payments ≡ some p
      → p.dealer_id ≡ owner id
  mine id p s (_, (op, _, _)) found =
      AllRows-lookup (OwnsPayment owner holder) id p s.payments op found

  pub edit-IsConsistent :
      (id : ℕ) (form : PaymentForm) (env : Env) (s : Store)
      → IsConsistent s
      → After (edit id form env s) (λ _ t. IsConsistent t)
  unfolding edit save_before log
  edit-IsConsistent id form env s c = lift-After _ _ _ λ _ _. lift-After _ _ _ λ _ _.
      or_throw-After _ _ _ _ λ (p : Payment) found.
        read-After _ (invoice_of-Reads p s) λ (invoice_id, invoice) _.
          read-After _ (fits-Reads invoice_id invoice id form.amount form.mode _ _ s) λ _ _.
            next-After
              (change-IsConsistent id invoice_id p _ s _ env.revision_id c found
                (edited_payment-dealer form p env.now) (mine id p s c found))
              λ _ t q. read-After _ (overdrawn-Reads p.dealer_id t) λ _ _. done q

  pub update_cheque_status-IsConsistent :
      (id : ℕ) (status : ChequeStatus) (excess : Bool) (env : Env) (s : Store)
      → IsConsistent s
      → After (update_cheque_status id status excess env s) (λ _ t. IsConsistent t)
  unfolding update_cheque_status save_before log
  update_cheque_status-IsConsistent id status excess env s c =
      or_throw-After _ _ _ _ λ (p : Payment) found. guard-After _ _ _ _ λ _.
        read-After _ (invoice_of-Reads p s) λ (invoice_id, invoice) _. lift-After _ _ _ λ _ _.
          read-After _ (represented-Reads invoice_id invoice id p status excess s) λ _ _.
            next-After
              (change-IsConsistent id invoice_id p _ s _ env.revision_id c found
                (restamped-dealer p status env.now) (mine id p s c found))
              λ _ t q. read-After _ (unless_returned-Reads status p.dealer_id t) λ _ _. done q

  pub remove-IsConsistent :
      (id : ℕ) (env : Env) (s : Store)
      → IsConsistent s
      → After (remove id env s) (λ _ t. IsConsistent t)
  unfolding remove save_before log
  remove-IsConsistent id env s c = or_throw-After _ _ _ _ λ (p : Payment) found.
      read-After _ (invoice_of-Reads p s) λ (invoice_id, invoice) _.
        next-After
          (removal-IsConsistent id invoice_id p s _ env.revision_id _ c found (mine id p s c found))
          λ _ t q. read-After _ (overdrawn-Reads p.dealer_id t) λ _ _. done q

  write_payment-Keeps :
      (form : PaymentForm) (invoice_id d : ℕ) (env : Env) (s : Store)
      → IsOwned owner holder s
      → d ≡ owner env.new_id
      → After (write_payment form invoice_id d env s) (λ _ t. IsOwned owner holder t)
  unfolding write_payment log
  write_payment-Keeps form invoice_id d env s (op, or, oi) own =
      let p = new_payment form invoice_id d env.now in
      let s1 : Store = record s { payments = insert env.new_id p s.payments } in
      let owned : IsOwned owner holder s1 = (
        AllRows-insert (OwnsPayment owner holder) env.new_id p s.payments op
            (new_payment-dealer form invoice_id d env.now ∙ own),
        or,
        oi,
      ) in
      next-After (recompute-Keeps holder invoice_id s1 oi) λ _ t k.
        next-After (increment-Keeps holder d _ s1 t k) λ _ u q. done (Keeps-IsOwned s1 u q owned)

  pub create-IsConsistent :
      (form : PaymentForm) (invoice_id : ℕ) (confirm : Bool) (env : Env) (s : Store)
      → IsConsistent s
      → holder invoice_id ≡ owner env.new_id
      → After (create form invoice_id confirm env s) (λ _ t. IsConsistent t)
  unfolding create
  create-IsConsistent form invoice_id confirm env s (b, o) own = lift-After _ _ _ λ _ _.
      lift-After _ _ _ λ _ _. or_throw-After _ _ _ _ λ (invoice : Invoice) found.
        guard-After _ _ _ _ λ _. guard-After _ _ _ _ λ _.
          both-After (write_payment-IsBalanced form invoice_id invoice.dealer_id env s b) (
            write_payment-Keeps form invoice_id invoice.dealer_id env s o (
              AllRows-lookup (HoldsInvoice owner holder) invoice_id invoice s.invoices o.2 found
              ∙ own))
