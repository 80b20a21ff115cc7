-- ===== src/WalletCredit/Limits.antt =====
-- What wallet credit can be used for.
use electro_mart_backend.Prelude.{inr, inl, ◌&&◌, Bool-cases, true, ℕ, ◌≡◌, Bool, refl, arith, some}
use electro_mart_backend.Prelude.Int.{ℤ, pos, ◌≤ℤ◌, gtb_ℤ}
use electro_mart_backend.Rows.{CreditUse}
use electro_mart_backend.Table.{insert, lookup}
use electro_mart_backend.Store.{Store, Env, log}
use electro_mart_backend.Store.After.{After, or_throw-After, guard-After, done}
use electro_mart_backend.Wallet.{compute_dealer_wallet, WalletInvoice}
use electro_mart_backend.WalletCredit.{use_credit, amount_used, new_use, due_on, write_use}

-- What the service promises of a credit use that it records on an invoice.
unfoldable pub IsWithin : ℕ → CreditUse → Store → Type 0
IsWithin invoice_id u s =
    let wallet = compute_dealer_wallet u.dealer_id s in
    (u.invoice_id ≡ invoice_id)
    × (¬ (u.amount ≤ℤ pos 0))
    × (u.amount ≤ℤ wallet.available)
    × ((figures : WalletInvoice) × (lookup invoice_id wallet.invoices ≡ some figures)
        × (u.amount ≤ℤ due_on figures))

amount_used-positive :
    (raw : ℤ) (up_to_due : Bool) (figures : WalletInvoice)
    → gtb_ℤ raw (pos 0) ≡ true
    → ¬ (amount_used raw up_to_due figures ≤ℤ pos 0)
unfolding amount_used
amount_used-positive raw up_to_due figures positive =
    elim (Bool-cases (up_to_due && gtb_ℤ raw (due_on figures) && gtb_ℤ (due_on figures) (pos 0))) [
      | inl cut ↦ rw cut (ground arith)
      | inr whole ↦ rw whole (ground arith)
    ]

-- A credit use that `useCreditInTransaction` records is the only new one, names the invoice, and is
-- for more than zero and for no more than the dealer's wallet has available and than is due on the
-- invoice, both as the wallet stands before it.
pub use_credit-IsWithin :
    (invoice_id : ℕ) (raw : ℤ) (up_to_due : Bool) (env : Env) (s : Store)
    → After (use_credit invoice_id raw up_to_due env s) (λ _ t.
      (u : CreditUse) × (t.credit_uses ≡ insert env.new_id u s.credit_uses)
      × IsWithin invoice_id u s)
unfolding use_credit log write_use IsWithin new_use
use_credit-IsWithin invoice_id raw up_to_due env s = guard-After _ _ s _ (λ positive.
    or_throw-After _ _ s _ (λ invoice found. or_throw-After _ _ s _ (λ figures listed.
      guard-After _ _ s _ (λ available. guard-After _ _ s _ (λ fits. done (
        new_use invoice_id invoice (amount_used raw up_to_due figures) env.now,
        refl,
        (
          refl,
          amount_used-positive raw up_to_due figures positive,
          ground arith,
          (figures, listed, ground arith),
        ),
      ))))))
