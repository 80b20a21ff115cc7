-- ===== src/Payments/Fit.antt =====
-- A new payment does not overpay its invoice unless the admin sends the excess to the wallet.
use electro_mart_backend.Prelude.{
  ℕ, ◌≡◌, refl, sym, ◌∙◌, Bool, true, false, not, ◌&&◌, some, List, [], ◌∷◌, foldl, same_id,
  if◌then◌else◌, Bool-cases, inl, inr, ==_refl,
}
use electro_mart_backend.Prelude.Int.{ℤ, pos, ◌+ℤ◌, ◌≤ℤ◌, gtb_ℤ, int_laws}
use electro_mart_backend.Rows.{Dealer, Invoice, Payment}
use electro_mart_backend.Table.{update, Table, lookup, insert, rows_where, lookup-update_self}
use electro_mart_backend.Store.{Activity, Store, Env, log, increment_balance}
use electro_mart_backend.Store.After.{
  next-After, After, or_throw-After, guard-After, lift-After, done,
}
use electro_mart_backend.Invoicing.{
  is_effective_payment, compute_effective_paid, compute_credit_used, payments_of, current_status,
  recompute_invoice_payment_status,
}
use electro_mart_backend.Cheques.{is_cheque}
use electro_mart_backend.Payments.Form.{PaymentForm, new_payment}
use electro_mart_backend.Payments.Checks.{net_grand_total}
use electro_mart_backend.Payments.Changes.{create, write_payment, excess_of}

-- What is paid on an invoice, in payments that count and in credit.
abbrev pub paid_on : ℕ → Store → ℤ
paid_on id s = compute_effective_paid (payments_of id s) +ℤ compute_credit_used id s

-- One round of `computeEffectivePaid`.
abbrev add_payment : ℤ → Payment → ℤ
add_payment sum p = if is_effective_payment p.mode p.cheque_status then sum +ℤ p.amount else sum

foldl-add_payment :
    (acc : ℤ) (ps : List Payment) → foldl add_payment acc ps ≡ acc +ℤ foldl add_payment (pos 0) ps
foldl-add_payment acc [] = omega int_laws
foldl-add_payment acc (p ∷ ps) = elim (Bool-cases (is_effective_payment p.mode p.cheque_status)) [
  | inl counts ↦ rw counts (
      grind (
        int_laws,
        foldl-add_payment (acc +ℤ p.amount) ps,
        foldl-add_payment (pos 0 +ℤ p.amount) ps,
      ))
  | inr idle ↦ rw idle (foldl-add_payment acc ps)
]

new_payment-counts :
    (form : PaymentForm) (id d now : ℕ)
    → is_effective_payment
        (new_payment form id d now).mode
        (new_payment form id d now).cheque_status
      ≡ true
unfolding new_payment is_effective_payment
new_payment-counts form id d now = elim (Bool-cases (is_cheque form.mode)) [
  | inl cheque ↦ rw (cheque, if◌then◌else◌) refl
  | inr other ↦ rw (other, if◌then◌else◌) refl
]

paid-insert :
    (id k : ℕ) (p : Payment) (t : Table Payment)
    → p.invoice_id ≡ some id
    → is_effective_payment p.mode p.cheque_status ≡ true
    → compute_effective_paid (rows_where (λ _ q. same_id q.invoice_id (some id)) (insert k p t))
      ≡ compute_effective_paid (rows_where (λ _ q. same_id q.invoice_id (some id)) t) +ℤ p.amount
unfolding compute_effective_paid insert rows_where
paid-insert id k p t own counts =
    let mine : same_id p.invoice_id (some id) ≡ true = rw own (==_refl id) in
    let rest = rows_where (λ _ q. same_id q.invoice_id (some id)) t in
    rw (mine, if◌then◌else◌)
      (rw counts (grind (int_laws, foldl-add_payment (pos 0 +ℤ p.amount) rest)))

paid-new :
    (form : PaymentForm) (id k d now : ℕ) (t : Table Payment)
    → compute_effective_paid (
        rows_where (λ _ q. same_id q.invoice_id (some id)) (insert k (new_payment form id d now) t))
      ≡ compute_effective_paid (rows_where (λ _ q. same_id q.invoice_id (some id)) t) +ℤ form.amount
unfolding new_payment
paid-new form id k d now t =
    paid-insert id k (new_payment form id d now) t refl (new_payment-counts form id d now)

increment-dealers :
    (d : ℕ) (x : ℤ) (s : Store)
    → After
        (increment_balance d x s)
        (λ _ t. (rows : Table Dealer) × (t ≡ record s { dealers = rows }))
unfolding increment_balance
increment-dealers d x s = or_throw-After _ _ _ _ (λ _ _. done (_, refl))

-- The state that `recomputeInvoicePaymentStatus` leaves.
abbrev restatused : ℕ → Invoice → Store → Store
restatused id j s = record s {
  invoices = update id (record j { payment_status = current_status j id s }) s.invoices;
}

recompute-restatused :
    (id : ℕ) (s : Store)
    → After
        (recompute_invoice_payment_status id s)
        (λ _ t. (j : Invoice) × (lookup id s.invoices ≡ some j) × (t ≡ restatused id j s))
unfolding recompute_invoice_payment_status
recompute-restatused id s = or_throw-After _ _ _ _ (λ j found. done (j, found, refl))

-- What is promised of the invoice.
abbrev pub IsPaidUp : ℕ → Store → Type 0
IsPaidUp id t =
    (i : Invoice) × (lookup id t.invoices ≡ some i)
    × (i.payment_status ≡ current_status i id t)
    × (paid_on id t ≤ℤ net_grand_total i t)

written-IsPaidUp :
    (form : PaymentForm) (id k d now : ℕ) (j : Invoice) (s : Store) (rows : Table Dealer)
    (acts : List (Activity × ℕ))
    → lookup id s.invoices ≡ some j
    → (paid_on id s +ℤ form.amount) ≤ℤ net_grand_total j s
    → IsPaidUp id
        (record (restatused id j
          (record s { payments = insert k (new_payment form id d now) s.payments })) {
            dealers = rows;
            activities = acts;
          })
unfolding net_grand_total compute_credit_used payments_of current_status
written-IsPaidUp form id k d now j s rows acts found fits = (
  _,
  lookup-update_self id _ j s.invoices found,
  refl,
  grind (int_laws, paid-new form id k d now s.payments, fits),
)

same_invoice : (i j : Invoice) → some i ≡ some j → i ≡ j
same_invoice i j e = cc

-- What the guard of `create` has found.
within_net :
    (form : PaymentForm) (id : ℕ) (i : Invoice) (s : Store)
    → form.excess_to_wallet ≡ false
    → not (
        gtb_ℤ (excess_of id form.amount (net_grand_total i s) s) (pos 0)
        && not form.excess_to_wallet)
      ≡ true
    → (paid_on id s +ℤ form.amount) ≤ℤ net_grand_total i s
unfolding excess_of
within_net form id i s no_excess fits = grind (int_laws, no_excess, fits)

-- A payment that `create` records without sending an excess to the wallet leaves its invoice paid up to
-- its net total at most, and with the status that its rows give it.
pub create-fits :
    (form : PaymentForm) (invoice_id : ℕ) (confirm : Bool) (env : Env) (s : Store)
    → form.excess_to_wallet ≡ false
    → After (create form invoice_id confirm env s) (λ _ t. IsPaidUp invoice_id t)
unfolding create write_payment log
create-fits form invoice_id confirm env s no_excess = lift-After _ _ _ (λ _ _.
    lift-After _ _ _ (λ _ _. or_throw-After _ _ _ _ (λ i found. guard-After _ _ _ _ (λ _.
      guard-After _ _ _ _ (λ fits.
        next-After (recompute-restatused invoice_id _) (λ _ t (j, again, e).
          next-After (increment-dealers i.dealer_id _ t) (λ _ u (rows, f). done (
            rw (f, e)
              (written-IsPaidUp form invoice_id env.new_id i.dealer_id env.now j s rows
                ((Activity.recorded_payment, env.new_id) ∷ s.activities) again
                (rw (same_invoice i j (sym found ∙ again)) at
                  (within_net form invoice_id i s no_excess fits)))))))))))
