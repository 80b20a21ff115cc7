-- ===== src/WalletCredit/Balance.antt =====
-- Wallet credit is no new money: a dealer's balance does not move with it.
use electro_mart_backend.Prelude.{refl, some, ℕ, ◌≡◌, Bool, false}
use electro_mart_backend.Prelude.Int.{ℤ}
use electro_mart_backend.Rows.{Invoice, PaymentStatus}
use electro_mart_backend.Table.{lookup, update, delete}
use electro_mart_backend.Store.{Store, Env, M, log}
use electro_mart_backend.Store.After.{After, or_throw-After, guard-After, next-After, done}
use electro_mart_backend.Ledger.{IsBalanced}
use electro_mart_backend.Ledger.Offsets.{billed-update}
use electro_mart_backend.Invoicing.{recompute_invoice_payment_status}
use electro_mart_backend.WalletCredit.{use_credit, remove_use, write_use}

restatused-IsBalanced :
    (id : ℕ) (i : Invoice) (status : PaymentStatus) (s : Store)
    → lookup id s.invoices ≡ some i
    → IsBalanced s
    → IsBalanced
        (record s { invoices = update id (record i { payment_status = status }) s.invoices })
restatused-IsBalanced id i status s found b d row e =
    rw
      (billed-update d id i (record i { payment_status = status }) s.orders s.invoices found refl
        refl refl)
      (b d row e)

recompute-IsBalanced :
    (id : ℕ) (s : Store)
    → IsBalanced s
    → After (recompute_invoice_payment_status id s) (λ _ t. IsBalanced t)
unfolding recompute_invoice_payment_status
recompute-IsBalanced id s b =
    or_throw-After _ _ _ _ (λ i found. done (restatused-IsBalanced id i _ s found b))

-- Using wallet credit.
use_credit-IsBalanced :
    (invoice_id : ℕ) (raw : ℤ) (up_to_due : Bool) (env : Env) (s : Store)
    → IsBalanced s
    → After (use_credit invoice_id raw up_to_due env s) (λ _ t. IsBalanced t)
unfolding use_credit log write_use
use_credit-IsBalanced invoice_id raw up_to_due env s b = guard-After _ _ s _ (λ positive.
    or_throw-After _ _ s _ (λ invoice found. or_throw-After _ _ s _ (λ figures listed.
      guard-After _ _ s _ (λ available.
        guard-After _ _ s _
          (λ fits. done (restatused-IsBalanced invoice_id invoice _ s found b))))))

-- Putting wallet credit back.
remove_use-IsBalanced :
    (id : ℕ) (s : Store) → IsBalanced s → After (remove_use id s) (λ _ t. IsBalanced t)
unfolding remove_use log
remove_use-IsBalanced id s b = or_throw-After _ _ s _ (λ u found.
    next-After
      (recompute-IsBalanced u.invoice_id (record s { credit_uses = delete id s.credit_uses }) b)
      (λ _ t still. done still))

-- What an administrator asks of DealerWalletService.
pub data CreditRequest : Type 0 where
  ask_use : ℕ → ℤ → CreditRequest
  ask_remove : ℕ → CreditRequest

unfoldable pub handle_credit : CreditRequest → Env → M (Unit {0})
handle_credit (ask_use invoice_id amount) env = use_credit invoice_id amount false env
handle_credit (ask_remove id) env = remove_use id

-- Wallet credit that is used on an invoice, or put back, keeps every dealer's balance what the rows
-- say, if it was.
pub handle_credit-IsBalanced :
    (q : CreditRequest) (env : Env) (s : Store)
    → IsBalanced s
    → After (handle_credit q env s) (λ _ t. IsBalanced t)
unfolding handle_credit
handle_credit-IsBalanced (ask_use invoice_id amount) env s b =
    use_credit-IsBalanced invoice_id amount false env s b
handle_credit-IsBalanced (ask_remove id) env s b = remove_use-IsBalanced id s b
