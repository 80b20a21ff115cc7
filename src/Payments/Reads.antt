-- ===== src/Payments/Reads.antt =====
-- The reading steps of PaymentsService: what each has found when it passes.
use electro_mart_backend.Prelude.{
  is_some, Bool-cases, if◌then◌else◌, inr, inl, Option-cases, ℕ, ◌≡◌, refl, Bool, true, false,
  Option, none, some, ◌||◌, not,
}
use electro_mart_backend.Prelude.Int.{ℤ}
use electro_mart_backend.Result.{Error, no_invoice}
use electro_mart_backend.Cheques.{PaymentMode, ChequeStatus}
use electro_mart_backend.Payments.Revisions.{is_deletion, latest_change}
use electro_mart_backend.Payments.Undo.{check_presence, change_to_undo}
use electro_mart_backend.Rows.{RevisionAction, deleted, Invoice, Payment}
use electro_mart_backend.Table.{lookup}
use electro_mart_backend.Store.{◌>>◌, pure, Store, or_throw, guard}
use electro_mart_backend.Store.After.{Reads-mono, Reads, passes, fails, guard-Reads}
use electro_mart_backend.Invoicing.{is_effective_payment}
use electro_mart_backend.Wallet.{is_overdrawn, assert_wallet_not_overdrawn}
use electro_mart_backend.Cheques.{returned}
use electro_mart_backend.Payments.Changes.{is_returned_status}
use electro_mart_backend.Payments.Checks.{invoice_of, fits_invoice, assert_fits_invoice}

find_invoice-Reads :
    (p : Payment) (s : Store) (id : ℕ) (o : Option Invoice)
    → p.invoice_id ≡ some id
    → lookup id s.invoices ≡ o
    → Reads (invoice_of p s) s (λ r. (p.invoice_id ≡ some r.0) × (lookup r.0 s.invoices ≡ some r.1))
unfolding invoice_of or_throw
find_invoice-Reads p s id none e f = fails no_invoice (rw (e, f, or_throw))
find_invoice-Reads p s id (some i) e f = passes (id, i) (rw (e, f, or_throw)) (e, f)

pub invoice_of-Reads :
    (p : Payment) (s : Store)
    → Reads (invoice_of p s) s (λ r. (p.invoice_id ≡ some r.0) × (lookup r.0 s.invoices ≡ some r.1))
unfolding invoice_of or_throw
invoice_of-Reads p s = elim (Option-cases p.invoice_id) [
  | inl e ↦ fails no_invoice (rw (e, or_throw))
  | inr (id, e) ↦ find_invoice-Reads p s id (lookup id s.invoices) e refl
]

pub fits-Reads :
    (invoice_id : ℕ) (invoice : Invoice) (id : ℕ) (amount : ℤ) (mode : PaymentMode)
    (status : Option ChequeStatus) (allow : Bool) (s : Store)
    → Reads (assert_fits_invoice invoice_id invoice id amount mode status allow s) s (λ _.
      (allow
        || not (is_effective_payment mode status)
        || fits_invoice invoice_id invoice id amount s)
      ≡ true)
unfolding assert_fits_invoice
fits-Reads invoice_id invoice id amount mode status allow s = guard-Reads _ _ s

pub overdrawn-Reads :
    (d : ℕ) (s : Store)
    → Reads (assert_wallet_not_overdrawn d s) s (λ _. not (is_overdrawn d s) ≡ true)
unfolding assert_wallet_not_overdrawn
overdrawn-Reads d s = guard-Reads _ _ s

-- The two reading steps of `updateChequeStatus` that depend on a test.
pub represented-Reads :
    (invoice_id : ℕ) (invoice : Invoice) (id : ℕ) (p : Payment) (status : ChequeStatus)
    (allow : Bool) (s : Store)
    → Reads
        ((if is_effective_payment p.mode p.cheque_status
            then pure tt
            else assert_fits_invoice invoice_id invoice id p.amount p.mode (some status) allow)
          s)
        s
        (λ _.
          (is_effective_payment p.mode p.cheque_status
            || allow
            || not (is_effective_payment p.mode (some status))
            || fits_invoice invoice_id invoice id p.amount s)
          ≡ true)
represented-Reads invoice_id invoice id p status allow s =
    elim (Bool-cases (is_effective_payment p.mode p.cheque_status)) [
      | inl counts ↦ rw counts (passes tt refl refl)
      | inr out ↦ rw out (fits-Reads invoice_id invoice id p.amount p.mode (some status) allow s)
    ]

pub unless_returned-Reads :
    (status : ChequeStatus) (d : ℕ) (s : Store)
    → Reads
        ((if is_returned_status status then pure tt else assert_wallet_not_overdrawn d) s)
        s
        (λ _. (is_returned_status status || not (is_overdrawn d s)) ≡ true)
unless_returned-Reads returned d s = passes tt refl refl
unless_returned-Reads _ d s = overdrawn-Reads d s

pub check_presence-Reads :
    (action : RevisionAction) (current : Option Payment) (s : Store)
    → Reads (check_presence action current s) s (λ _. is_some current ≡ not (is_deletion action))
unfolding check_presence
check_presence-Reads deleted none s = passes tt refl refl
check_presence-Reads deleted (some p) s = fails _ refl
check_presence-Reads _ none s = fails _ refl
check_presence-Reads _ (some p) s = passes tt refl refl

guarded-Reads :
    {A : Type 0} (c : Bool) (x : Error) (o : Option A) (e : Error) (s : Store)
    → Reads ((guard c x >> or_throw o e) s) s (λ a. (c ≡ true) × (o ≡ some a))
unfolding guard or_throw
guarded-Reads true x none e s = fails e refl
guarded-Reads true x (some a) e s = passes a refl (refl, refl)
guarded-Reads false x o e s = fails x refl

pub change_to_undo-Reads :
    (id : ℕ) (expected : Option ℕ) (s : Store)
    → Reads (change_to_undo id expected s) s (λ r. latest_change id s.revisions ≡ some r)
unfolding change_to_undo
change_to_undo-Reads id expected s =
    Reads-mono (λ _ h. h.1) (guarded-Reads _ _ (latest_change id s.revisions) _ s)
