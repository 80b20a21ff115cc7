-- ===== src/WalletCredit.antt =====
-- DealerWalletService (src/dealer-wallet/dealer-wallet.service.ts): wallet credit used on an invoice,
-- and put back.
pub mod Limits
pub mod Balance
use electro_mart_backend.Prelude.{ℕ, Bool, not, ◌&&◌, Option, if◌then◌else◌}
use electro_mart_backend.Prelude.Int.{ℤ, pos, ◌+ℤ◌, ◌-ℤ◌, gtb_ℤ}
use electro_mart_backend.Result.{
  amount_not_positive, invoice_not_found, exceeds_available, exceeds_due, credit_use_not_found,
  record_not_found,
}
use electro_mart_backend.Rows.{CreditUse, Invoice}
use electro_mart_backend.Table.{lookup, insert, update, delete}
use electro_mart_backend.Store.{
  Store, Env, M, pure, gets, guard, modify, or_throw, log, Activity, ◌>>=◌, ◌>>◌,
}
use electro_mart_backend.Invoicing.{derive_payment_status, recompute_invoice_payment_status}
use electro_mart_backend.Wallet.{WalletInvoice, DealerWallet, compute_dealer_wallet}

-- What is still due on an invoice.
abbrev pub due_on : WalletInvoice → ℤ
due_on figures = figures.net -ℤ figures.paid

-- The amount used: what is asked for, cut at what is due if `upToDue` asks for that.
unfoldable pub amount_used : ℤ → Bool → WalletInvoice → ℤ
amount_used raw up_to_due figures =
    if up_to_due && gtb_ℤ raw (due_on figures) && gtb_ℤ (due_on figures) (pos 0)
    then due_on figures
    else raw

unfoldable pub new_use : ℕ → Invoice → ℤ → ℕ → CreditUse
new_use invoice_id invoice amount now = record {
  dealer_id = invoice.dealer_id;
  invoice_id = invoice_id;
  amount = amount;
  created_at = now;
}

-- The writes of `useCreditInTransaction`.
unfoldable pub write_use : ℕ → Invoice → WalletInvoice → ℤ → Env → M (Unit {0})
unfolding new_use derive_payment_status
write_use invoice_id invoice figures amount env = do
  modify (λ s. record s {
    credit_uses = insert env.new_id (new_use invoice_id invoice amount env.now) s.credit_uses;
  })
  modify (λ s. record s {
    invoices =
        update invoice_id
          (record invoice {
            payment_status = derive_payment_status (figures.paid +ℤ amount) figures.net;
          })
          s.invoices;
  })
  log Activity.used_wallet_credit env.new_id

-- `useCreditInTransaction`; the wallet is read in it from the same rows.
unfoldable pub use_credit : ℕ → ℤ → Bool → Env → M (Unit {0})
unfolding compute_dealer_wallet amount_used write_use
use_credit invoice_id raw up_to_due env = do
  guard (gtb_ℤ raw (pos 0)) amount_not_positive
  invoice ← or_throw (← gets (λ s. lookup invoice_id s.invoices)) invoice_not_found
  wallet ← gets (compute_dealer_wallet invoice.dealer_id)
  figures ← or_throw (lookup invoice_id wallet.invoices) invoice_not_found
  let amount = amount_used raw up_to_due figures
  guard (not (gtb_ℤ amount wallet.available)) exceeds_available
  guard (not (gtb_ℤ amount (due_on figures))) exceeds_due
  write_use invoice_id invoice figures amount env

unfoldable pub remove_use : ℕ → M (Unit {0})
remove_use id = do
  use_row ← or_throw (← gets (λ s. lookup id s.credit_uses)) credit_use_not_found
  modify (λ s. record s { credit_uses = delete id s.credit_uses })
  _ ← recompute_invoice_payment_status use_row.invoice_id
  log Activity.removed_wallet_credit id
