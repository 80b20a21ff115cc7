-- ===== src/Examples/Credit.antt =====
-- What the services do with credit and settlements, on small databases.
use electro_mart_backend.Prelude.{
  ◌≢◌, ◌+◌, ◌≤◌, refl, ◌==◌, if◌then◌else◌, ℕ, ◌≡◌, false, none, some, [], ◌∷◌, arith,
}
use electro_mart_backend.Prelude.Int.{◌+ℤ◌, pos, ◌≤ℤ◌, ◌-ℤ◌}
use electro_mart_backend.Cheques.{PaymentMode, ChequeStatus}
use electro_mart_backend.Rows.{SupplierPayment, CreditUse}
use electro_mart_backend.Table.{Table, insert}
use electro_mart_backend.Table.Predicates.{AllRows}
use electro_mart_backend.Store.{Store}
use electro_mart_backend.Store.After.{After}
use electro_mart_backend.Ledger.{IsBalanced}
use electro_mart_backend.Settlements.{
  SettlementForm, create_settlement, update_settlement_status, delete_settlement,
}
use electro_mart_backend.Settlements.Settled.{settled_at, owed}
use electro_mart_backend.Settlements.Owed.{
  create_settlement-owed, update_settlement_status-owed, delete_settlement-owed,
}
use electro_mart_backend.WalletCredit.{use_credit}
use electro_mart_backend.Wallet.{max0, compute_dealer_wallet}
use electro_mart_backend.Table.{lookup}
use electro_mart_backend.Table.Sums.{total}
use electro_mart_backend.Wallet.Totals.{
  HasOneRowEach, IsCreditOwned, holders, total_dealer_wallets, total_dealer_wallets-wallets,
}
use electro_mart_backend.WalletCredit.Limits.{use_credit-IsWithin, IsWithin}
use electro_mart_backend.WalletCredit.Balance.{
  CreditRequest, handle_credit, handle_credit-IsBalanced,
}
use electro_mart_backend.Examples.Data.{env, nothing, owing_in_credit, owing_in_credit-IsBalanced}
use electro_mart_backend.Clock.{day_ms}

-- A supplier who is owed 9000 cents, less a cheque of 2000.
abbrev cheque_row : SupplierPayment
cheque_row = record {
  supplier_id = 5;
  amount = pos 2000;
  mode = PaymentMode.cheque;
  reference = none;
  payment_date = 90000000;
  cheque_status = some ChequeStatus.returned;
  cheque_status_updated_at = some 95000000;
  cheque_deposit_date = some 96000000;
  bank_name = none;
  created_at = 90000000;
}

abbrev supplied : Store
supplied = record nothing {
  suppliers = (5, tt) ∷ [];
  purchases =
      (
        4,
        record {
          supplier_id = 5;
          total_value = pos 9000;
          transport_charges = pos 0;
          purchase_date = 80000000;
          cancelled_at = none;
          items = [];
        },
      )
      ∷ [];
  supplier_payments = (6, cheque_row) ∷ [];
}

abbrev settlement_form : SettlementForm
settlement_form = record {
  amount = pos 3000;
  mode = PaymentMode.cash;
  reference = none;
  payment_date = 95000000;
  cheque_deposit_date = none;
  bank_name = none;
  confirm_duplicate = false;
}

create_settlement-owed_example : After (create_settlement 5 settlement_form env supplied) (λ _ t.
    (pos 0 ≤ℤ owed 5 t)
    × ((id : ℕ)
        → owed id t ≡ owed id supplied -ℤ (if 5 == id then settlement_form.amount else pos 0)))
create_settlement-owed_example = create_settlement-owed 5 settlement_form env supplied

supplied-IsPositive : AllRows (λ _ p. pos 0 ≤ℤ p.amount) supplied.supplier_payments
supplied-IsPositive = (omega arith, tt)

update_settlement_status-owed_example :
    After
      (update_settlement_status 6 ChequeStatus.pending env supplied)
      (λ _ t. (id : ℕ) → pos 0 ≤ℤ owed id supplied → pos 0 ≤ℤ owed id t)
update_settlement_status-owed_example =
    update_settlement_status-owed 6 ChequeStatus.pending env supplied supplied-IsPositive

delete_settlement-owed_example : After (delete_settlement 6 env supplied) (λ _ t.
    (p : SupplierPayment) × (lookup 6 supplied.supplier_payments ≡ some p)
    × (env.now ≤ p.created_at + day_ms)
    × ((id : ℕ) → owed id t ≡ owed id supplied +ℤ settled_at id p)
    × ((j : ℕ) → j ≢ 6 → lookup j t.supplier_payments ≡ lookup j supplied.supplier_payments))
delete_settlement-owed_example = delete_settlement-owed 6 env supplied

use_credit-IsWithin_example : After (use_credit 2 (pos 2500) false env owing_in_credit) (λ _ t.
    (u : CreditUse) × (t.credit_uses ≡ insert 50 u owing_in_credit.credit_uses)
    × IsWithin 2 u owing_in_credit)
use_credit-IsWithin_example = use_credit-IsWithin 2 (pos 2500) false env owing_in_credit

-- 1000 cents of credit are in use.
abbrev one_use : Table CreditUse
one_use =
    (8, record { dealer_id = 7; invoice_id = 2; amount = pos 1000; created_at = 95000000 }) ∷ []

handle_credit-IsBalanced_example :
    After
      (handle_credit
        (CreditRequest.ask_remove 8)
        env
        (record owing_in_credit { credit_uses = one_use }))
      (λ _ t. IsBalanced t)
handle_credit-IsBalanced_example =
    handle_credit-IsBalanced (CreditRequest.ask_remove 8) env
      (record owing_in_credit { credit_uses = one_use }) owing_in_credit-IsBalanced

-- The dealer uses 1000 cents of it.
abbrev using_credit : Store
using_credit = record owing_in_credit { credit_uses = one_use }

one_row_each : HasOneRowEach using_credit.invoices
unfolding lookup
one_row_each = (refl, tt)

use_owned : IsCreditOwned using_credit.invoices using_credit.credit_uses
unfolding lookup
use_owned = ((_, refl, refl), tt)

total_dealer_wallets-wallets_example :
    ((total_dealer_wallets using_credit).total_held
      ≡ total (λ id _. max0 (compute_dealer_wallet id using_credit).balance) using_credit.dealers)
    × ((total_dealer_wallets using_credit).dealers ≡ holders using_credit.dealers using_credit)
total_dealer_wallets-wallets_example =
    total_dealer_wallets-wallets using_credit one_row_each use_owned
