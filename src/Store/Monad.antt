-- ===== src/Store/Monad.antt =====
-- The state, the request's environment, and the transaction monad with the calls of the Prisma client.
use electro_mart_backend.Prelude.{ℕ, Bool, Option, none, some, List, ◌∷◌}
use electro_mart_backend.Prelude.Int.{ℤ, ◌+ℤ◌}
use electro_mart_backend.Result.{Error, Result, ok, err, require, record_not_found}
use electro_mart_backend.Rows.{
  Dealer, Order, Invoice, Payment, PaymentRevision, CreditUse, SalesReturn, Refund, Purchase,
  PurchaseReturn, SupplierPayment, LedgerRevision, InventoryLog,
}
use electro_mart_backend.Rows.Commission.{
  CommissionRule, CommissionLine, RepSettlement, Expense, CashAdjustment,
}
use electro_mart_backend.Table.{Table, lookup, update}

-- What the admin's activity log keeps of an action, less the text for people.
pub data Activity : Type 0 where
  recorded_payment updated_payment returned_payment updated_payment_cheque_status : Activity
  undid_payment_change used_wallet_credit removed_wallet_credit : Activity
  recorded_refund updated_refund updated_refund_cheque_status cancelled_refund : Activity
  restored_refund recorded_settlement updated_cheque_status deleted_settlement : Activity
  recorded_sales_return updated_sales_return deleted_sales_return : Activity
  approved_order rejected_order order_packed order_delivered order_completed : Activity
  order_directly_completed deleted_order : Activity
  recorded_purchase updated_purchase deleted_purchase adjusted_inventory : Activity
  created_settlement approved_settlement rejected_settlement paid_settlement : Activity
  updated_settlement_cheque_status reversed_settlement_payment : Activity

pub record Store : Type 0 where
  pub dealers : Table Dealer
  pub orders : Table Order
  pub invoices : Table Invoice
  pub payments : Table Payment
  pub revisions : Table PaymentRevision
  pub credit_uses : Table CreditUse
  pub sales_returns : Table SalesReturn
  pub refunds : Table Refund
  -- a rep's collection, with the payment that it resulted in
  pub collections : Table (Option ℕ)
  pub suppliers : Table (Unit {0})
  pub purchases : Table Purchase
  pub purchase_returns : Table PurchaseReturn
  pub replacements : Table PurchaseReturn
  pub supplier_payments : Table SupplierPayment
  pub ledger_revisions : List LedgerRevision
  -- the stock of each product
  pub stock : Table ℕ
  pub inventory_logs : List InventoryLog
  pub representatives : Table (Unit {0})
  pub commission_rules : Table CommissionRule
  pub commission_lines : Table CommissionLine
  pub rep_settlements : Table RepSettlement
  pub expenses : Table Expense
  pub cash_adjustments : Table CashAdjustment
  pub activities : List (Activity × ℕ)

-- The clock (`new Date()`, one reading for a request) and the ids that the database hands out
-- (`@default(uuid())`) for the row that the request creates and for its revision.
pub record Env : Type 0 where
  pub now : ℕ
  pub new_id : ℕ
  pub revision_id : ℕ

abbrev pub M : Type 0 → Type 0
M A = Store → Result (A × Store)

abbrev pub pure : {A : Type 0} → A → M A
pure a s = ok (a, s)

abbrev pub next : {A B : Type 0} → Result (A × Store) → (A → M B) → Result (B × Store)
next (ok (a, s)) f = f a s
next (err e) f = err e

infixl 5 ◌>>=◌ ◌>>◌
abbrev pub ◌>>=◌ : {A B : Type 0} → M A → (A → M B) → M B
◌>>=◌ m f s = next (m s) f

abbrev pub ◌>>◌ : {B : Type 0} → M (Unit {0}) → M B → M B
m >> k = m >>= λ _. k

unfoldable pub lift : {A : Type 0} → Result A → M A
lift (ok a) s = ok (a, s)
lift (err e) s = err e

abbrev pub throw : {A : Type 0} → Error → M A
throw e s = err e

unfoldable pub guard : Bool → Error → M (Unit {0})
unfolding lift
guard c e = lift (require c e)

abbrev pub gets : {A : Type 0} → (Store → A) → M A
gets f s = ok (f s, s)

abbrev pub modify : (Store → Store) → M (Unit {0})
modify f s = ok (tt, f s)

unfoldable pub or_throw : {A : Type 0} → Option A → Error → M A
or_throw none e s = err e
or_throw (some a) e s = ok (a, s)

-- `tx.dealer.update({ data: { outstandingBalance: { increment: delta } } })`
unfoldable pub increment_balance : ℕ → ℤ → M (Unit {0})
increment_balance id delta = do
  d ← or_throw (← gets (λ s. lookup id s.dealers)) record_not_found
  modify (λ s. record s {
    dealers =
        update id (record d { outstanding_balance = d.outstanding_balance +ℤ delta }) s.dealers;
  })

-- `activityLogService.log`
unfoldable pub log : Activity → ℕ → M (Unit {0})
log a id = modify (λ s. record s { activities = (a, id) ∷ s.activities })
