-- ===== src/Settlements/Settled.antt =====
-- What a settlement takes off what its supplier is owed, and what each write of a row does to it.
use electro_mart_backend.Prelude.{
  is_some, ℕ, ◌≡◌, refl, true, false, ◌&&◌, List, Option, none, some, ◌==◌, if◌then◌else◌, arith,
}
use electro_mart_backend.Prelude.Int.{ℤ, pos, ◌+ℤ◌, ◌-ℤ◌, ◌≤ℤ◌, int_laws}
use electro_mart_backend.Cheques.{PaymentMode, ChequeStatus}
use electro_mart_backend.Rows.{SupplierPayment, LedgerRevision}
use electro_mart_backend.Table.{lookup, insert, update, delete}
use electro_mart_backend.Table.Sums.{total-insert, total-update, total-delete}
use electro_mart_backend.Store.{Store, Activity}
use electro_mart_backend.Wallet.{sql_effective}
use electro_mart_backend.Suppliers.Balance.{
  compute_supplier_balance, supplier_balance, supplier_components,
}
use electro_mart_backend.Invoicing.{is_returned}
use electro_mart_backend.Settlements.{SettlementForm, new_settlement}

-- What the business owes a supplier.
abbrev pub owed : ℕ → Store → ℤ
owed id s = compute_supplier_balance (some id) s

-- What a row takes off what the supplier `id` is owed.
unfoldable pub settled_at : ℕ → SupplierPayment → ℤ
settled_at id p =
    if p.supplier_id == id && sql_effective p.mode p.cheque_status then p.amount else pos 0

pub owed-insert :
    (id k : ℕ) (p : SupplierPayment) (s : Store) (history : List LedgerRevision)
    (acts : List (Activity × ℕ))
    → owed id (record s {
      supplier_payments = insert k p s.supplier_payments;
      ledger_revisions = history;
      activities = acts;
    })
      ≡ owed id s -ℤ settled_at id p
unfolding compute_supplier_balance supplier_balance supplier_components settled_at
owed-insert id k p s history acts = grind (int_laws, total-insert _ k p s.supplier_payments)

pub owed-update :
    (id k : ℕ) (p old : SupplierPayment) (s : Store) (history : List LedgerRevision)
    (acts : List (Activity × ℕ))
    → lookup k s.supplier_payments ≡ some old
    → owed id (record s {
      supplier_payments = update k p s.supplier_payments;
      ledger_revisions = history;
      activities = acts;
    })
      ≡ owed id s +ℤ settled_at id old -ℤ settled_at id p
unfolding compute_supplier_balance supplier_balance supplier_components settled_at
owed-update id k p old s history acts e =
    grind (int_laws, total-update _ k p old s.supplier_payments e)

pub owed-delete :
    (id k : ℕ) (old : SupplierPayment) (s : Store) (history : List LedgerRevision)
    (acts : List (Activity × ℕ))
    → lookup k s.supplier_payments ≡ some old
    → owed id (record s {
      supplier_payments = delete k s.supplier_payments;
      ledger_revisions = history;
      activities = acts;
    })
      ≡ owed id s +ℤ settled_at id old
unfolding compute_supplier_balance supplier_balance supplier_components settled_at
owed-delete id k old s history acts e = grind (int_laws, total-delete _ k old s.supplier_payments e)

pub new_settlement-settled_at :
    (id : ℕ) (form : SettlementForm) (supplier_id now : ℕ)
    → settled_at id (new_settlement form supplier_id now)
      ≡ (if supplier_id == id then form.amount else pos 0)
unfolding settled_at new_settlement sql_effective
new_settlement-settled_at id form supplier_id now = ground arith

pub settled_le : (id : ℕ) (p : SupplierPayment) → pos 0 ≤ℤ p.amount → settled_at id p ≤ℤ p.amount
unfolding settled_at
settled_le id p positive = ground arith

pub settled_nonneg : (id : ℕ) (p : SupplierPayment) → pos 0 ≤ℤ p.amount → pos 0 ≤ℤ settled_at id p
unfolding settled_at
settled_nonneg id p positive = ground arith

pub settled_other :
    (id : ℕ) (p : SupplierPayment) → (p.supplier_id == id) ≡ false → settled_at id p ≡ pos 0
unfolding settled_at
settled_other id p differ = rw differ refl

live_effective :
    (mode : PaymentMode) (status : Option ChequeStatus)
    → is_some status ≡ true
    → is_returned status ≡ false
    → sql_effective mode status ≡ true
unfolding sql_effective
live_effective PaymentMode.cheque (some ChequeStatus.pending) a b = refl
live_effective PaymentMode.cheque (some ChequeStatus.cleared) a b = refl
live_effective PaymentMode.cheque (some ChequeStatus.returned) a b = cc
live_effective PaymentMode.cheque none a b = cc
live_effective _ _ a b = refl

pub settled_live :
    (id : ℕ) (p : SupplierPayment)
    → (p.supplier_id == id) ≡ true
    → is_some p.cheque_status ≡ true
    → is_returned p.cheque_status ≡ false
    → settled_at id p ≡ p.amount
unfolding settled_at
settled_live id p same stamped live =
    rw (same, live_effective p.mode p.cheque_status stamped live) refl
