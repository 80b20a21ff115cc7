-- ===== src/Payments/Balance.antt =====
-- What the writes to the table of payments do to the ledger, and how settling balances it.
use electro_mart_backend.Prelude.{
  none, refl, Option, ◌∙◌, ℕ, ◌≡◌, false, some, arith, ◌==◌, if◌then◌else◌, Bool-cases, inl, inr,
}
use electro_mart_backend.Prelude.Int.{neg_ℤ, eqb_ℤ, ℤ, pos, ◌+ℤ◌, ◌-ℤ◌, int_laws}
use electro_mart_backend.Rows.{PaymentRevision, Payment}
use electro_mart_backend.Table.{Table, lookup, insert, update, delete}
use electro_mart_backend.Table.Sums.{total-update, total-insert, total-delete}
use electro_mart_backend.Store.{Env, log, Store}
use electro_mart_backend.Ledger.{IsBalanced, counted_payments}
use electro_mart_backend.Ledger.Offsets.{
  IsOff-eq, IsBalanced-IsOff, recompute-IsOff, increment-IsOff, IsOff-IsBalanced, IsOff,
}
use electro_mart_backend.Payments.Checks.{settle_financials, effective_amount}
use electro_mart_backend.Payments.Changes.{restamped, write_payment}
use electro_mart_backend.Store.After.{done, After-mono, next-After, After}
use electro_mart_backend.Payments.Form.{edited_payment, new_payment, PaymentForm}
use electro_mart_backend.Cheques.{ChequeStatus}

-- What a row adds to the payments counted for `d`.
credit_at : ℕ → Payment → ℤ
unfolding effective_amount
credit_at d p = if p.dealer_id == d then effective_amount (some p) else pos 0

counted-insert :
    (d k : ℕ) (p : Payment) (t : Table Payment)
    → counted_payments d (insert k p t) ≡ counted_payments d t +ℤ credit_at d p
unfolding counted_payments credit_at
counted-insert d k p t = total-insert _ k p t ∙ ground arith

counted-update :
    (d k : ℕ) (p old : Payment) (t : Table Payment)
    → lookup k t ≡ some old
    → counted_payments d (update k p t) ≡ counted_payments d t -ℤ credit_at d old +ℤ credit_at d p
unfolding counted_payments credit_at
counted-update d k p old t e = total-update _ k p old t e ∙ ground arith

counted-delete :
    (d k : ℕ) (old : Payment) (t : Table Payment)
    → lookup k t ≡ some old
    → counted_payments d (delete k t) ≡ counted_payments d t -ℤ credit_at d old
unfolding counted_payments credit_at
counted-delete d k old t e = total-delete _ k old t e ∙ ground arith

credit_at_own : (d : ℕ) (p : Payment) → p.dealer_id ≡ d → credit_at d p ≡ effective_amount (some p)
unfolding credit_at
credit_at_own d p e = ground arith

credit_at_other : (d : ℕ) (p : Payment) → (p.dealer_id == d) ≡ false → credit_at d p ≡ pos 0
unfolding credit_at
credit_at_other d p e = rw e

pub insert-IsOff :
    (d0 : ℕ) (x : ℤ) (k : ℕ) (p : Payment) (s : Store)
    → p.dealer_id ≡ d0
    → IsOff d0 x s
    → IsOff d0 (x +ℤ effective_amount (some p)) (record s { payments = insert k p s.payments })
insert-IsOff d0 x k p s own o d row e = elim (Bool-cases (d == d0)) [
  | inl same ↦ grind (int_laws, o d row e, counted-insert d k p s.payments, credit_at_own d p)
  | inr differ ↦ grind (int_laws, o d row e, counted-insert d k p s.payments, credit_at_other d p)
]

pub update-IsOff :
    (d0 : ℕ) (x : ℤ) (k : ℕ) (p old : Payment) (s : Store)
    → lookup k s.payments ≡ some old
    → p.dealer_id ≡ d0
    → old.dealer_id ≡ d0
    → IsOff d0 x s
    → IsOff d0
        (x +ℤ (effective_amount (some p) -ℤ effective_amount (some old)))
        (record s { payments = update k p s.payments })
update-IsOff d0 x k p old s found own own_old o d row e =
    let counted = counted-update d k p old s.payments found in
    elim (Bool-cases (d == d0)) [
      | inl same ↦ grind (int_laws, o d row e, counted, credit_at_own d p, credit_at_own d old)
      | inr differ ↦
          grind (int_laws, o d row e, counted, credit_at_other d p, credit_at_other d old)
    ]

delete-IsOff :
    (d0 : ℕ) (x : ℤ) (k : ℕ) (old : Payment) (s : Store)
    → lookup k s.payments ≡ some old
    → old.dealer_id ≡ d0
    → IsOff d0 x s
    → IsOff d0 (x -ℤ effective_amount (some old)) (record s { payments = delete k s.payments })
delete-IsOff d0 x k old s found own o d row e =
    let counted = counted-delete d k old s.payments found in
    elim (Bool-cases (d == d0)) [
      | inl same ↦ grind (int_laws, o d row e, counted, credit_at_own d old)
      | inr differ ↦ grind (int_laws, o d row e, counted, credit_at_other d old)
    ]

-- Settling brings a ledger that is off by what the change of the payment counts for into balance.
pub settle-IsBalanced :
    (invoice_id d0 : ℕ) (before after : Option Payment) (s : Store)
    → IsOff d0 (effective_amount after -ℤ effective_amount before) s
    → After (settle_financials invoice_id d0 before after s) (λ _ s'. IsBalanced s')
unfolding settle_financials
settle-IsBalanced invoice_id d0 before after s o =
    let delta = effective_amount before -ℤ effective_amount after in
    let off = effective_amount after -ℤ effective_amount before in
    next-After (recompute-IsOff d0 off invoice_id s o) λ status t q.
      elim (Bool-cases (eqb_ℤ delta (pos 0))) [
        | inl zero ↦ rw zero (done (IsOff-IsBalanced d0 off t (grind int_laws) q))
        | inr nonzero ↦ rw nonzero (
            After-mono (λ _ u. IsOff-IsBalanced d0 (off +ℤ delta) u (omega int_laws))
              (increment-IsOff d0 off delta t q))
      ]

-- A new payment counts in full: a cheque of it is pending.
new_payment-effective :
    (form : PaymentForm) (invoice_id d0 now : ℕ)
    → effective_amount (some (new_payment form invoice_id d0 now)) ≡ form.amount
unfolding effective_amount new_payment
new_payment-effective form invoice_id d0 now = ground arith

pub new_payment-dealer :
    (form : PaymentForm) (invoice_id d0 now : ℕ)
    → (new_payment form invoice_id d0 now).dealer_id ≡ d0
unfolding new_payment
new_payment-dealer form invoice_id d0 now = refl

pub write_payment-IsBalanced :
    (form : PaymentForm) (invoice_id d0 : ℕ) (env : Env) (s : Store)
    → IsBalanced s
    → After (write_payment form invoice_id d0 env s) (λ _ s'. IsBalanced s')
unfolding write_payment log
write_payment-IsBalanced form invoice_id d0 env s b =
    let p = new_payment form invoice_id d0 env.now in
    let x = pos 0 +ℤ effective_amount (some p) in
    let s1 : Store = record s { payments = insert env.new_id p s.payments } in
    next-After
      (recompute-IsOff d0 x invoice_id s1 (
        insert-IsOff d0 (pos 0) env.new_id p s (new_payment-dealer form invoice_id d0 env.now)
          (IsBalanced-IsOff d0 s b)))
      λ _ t q. next-After (increment-IsOff d0 x (neg_ℤ form.amount) t q) λ _ u r. done (
        IsOff-IsBalanced d0 (x +ℤ neg_ℤ form.amount) u
          (grind (int_laws, new_payment-effective form invoice_id d0 env.now)) r)

pub edited_payment-dealer :
    (form : PaymentForm) (p : Payment) (now : ℕ)
    → (edited_payment form p now).dealer_id ≡ p.dealer_id
unfolding edited_payment
edited_payment-dealer form p now = refl

-- Putting any row of the same dealer in a payment's place, and settling, keeps the ledger balanced.
pub change-IsBalanced :
    (id invoice_id : ℕ) (p new : Payment) (s : Store) (history : Table PaymentRevision)
    → lookup id s.payments ≡ some p
    → new.dealer_id ≡ p.dealer_id
    → IsBalanced s
    → After
        (settle_financials invoice_id p.dealer_id
          (some p)
          (some new)
          (record s { payments = update id new s.payments; revisions = history }))
        (λ _ s'. IsBalanced s')
change-IsBalanced id invoice_id p new s history found own b =
    let d = p.dealer_id in
    let s1 : Store = record s { payments = update id new s.payments; revisions = history } in
    settle-IsBalanced invoice_id d (some p) (some new) s1 (
      IsOff-eq d _ (effective_amount (some new) -ℤ effective_amount (some p)) s1 (omega int_laws)
        (update-IsOff d (pos 0) id new p s found own refl (IsBalanced-IsOff d s b)))

pub restamped-dealer :
    (p : Payment) (status : ChequeStatus) (now : ℕ)
    → (restamped p status now).dealer_id ≡ p.dealer_id
unfolding restamped
restamped-dealer p status now = refl

pub removal-IsBalanced :
    (id invoice_id : ℕ) (p : Payment) (s : Store) (history : Table PaymentRevision)
    (links : Table (Option ℕ))
    → lookup id s.payments ≡ some p
    → IsBalanced s
    → After
        (settle_financials invoice_id p.dealer_id
          (some p)
          none
          (record s { payments = delete id s.payments; revisions = history; collections = links }))
        (λ _ s'. IsBalanced s')
unfolding effective_amount
removal-IsBalanced id invoice_id p s history links found b =
    let d = p.dealer_id in
    settle-IsBalanced invoice_id d (some p) none
      (record s { payments = delete id s.payments; revisions = history; collections = links })
      (delete-IsOff d (pos 0) id p s found refl (IsBalanced-IsOff d s b))

-- Putting a deleted payment back, and settling, keeps the ledger balanced.
pub revival-IsBalanced :
    (id invoice_id : ℕ) (p : Payment) (s : Store) (history : Table PaymentRevision)
    (links : Table (Option ℕ))
    → IsBalanced s
    → After
        (settle_financials invoice_id p.dealer_id none (some p) (record s {
          payments = insert id p s.payments;
          revisions = history;
          collections = links;
        }))
        (λ _ s'. IsBalanced s')
unfolding effective_amount
revival-IsBalanced id invoice_id p s history links b =
    let d = p.dealer_id in
    let s1 : Store = record s {
      payments = insert id p s.payments;
      revisions = history;
      collections = links;
    } in
    settle-IsBalanced invoice_id d none (some p) s1 (
      IsOff-eq d _ (effective_amount (some p) -ℤ effective_amount none) s1 (omega int_laws)
        (insert-IsOff d (pos 0) id p s refl (IsBalanced-IsOff d s b)))
