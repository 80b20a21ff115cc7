-- ===== src/Examples/Data.antt =====
-- Small databases, and proofs of what the theorems ask of a state. Amounts are in cents.
use electro_mart_backend.Prelude.{
  ℕ, ◌≡◌, refl, false, none, some, [], ◌∷◌, ◌==◌, Bool-cases, ==→eq, inl, inr, arith,
}
use electro_mart_backend.Prelude.Int.{ℤ, pos, negsuc, ◌+ℤ◌, ◌-ℤ◌}
use electro_mart_backend.Cheques.{PaymentMode}
use electro_mart_backend.Rows.{
  Dealer, Order, OrderItem, OrderStatus, Invoice, PaymentStatus, Payment,
}
use electro_mart_backend.Table.{Table, lookup}
use electro_mart_backend.Table.Sums.{total}
use electro_mart_backend.Store.{Store, Env}
use electro_mart_backend.Invoicing.{is_effective_payment}
use electro_mart_backend.Ledger.{
  IsBalanced, due, billed, counted_payments, counted_refunds, goods_returned,
}

-- A request on the second day of the epoch.
abbrev pub env : Env
env = record { now = 100000000; new_id = 50; revision_id = 60 }

abbrev pub nothing : Store
nothing = record {
  dealers = [];
  orders = [];
  invoices = [];
  payments = [];
  revisions = [];
  credit_uses = [];
  sales_returns = [];
  refunds = [];
  collections = [];
  suppliers = [];
  purchases = [];
  purchase_returns = [];
  replacements = [];
  supplier_payments = [];
  ledger_revisions = [];
  stock = [];
  inventory_logs = [];
  representatives = [];
  commission_rules = [];
  commission_lines = [];
  rep_settlements = [];
  expenses = [];
  cash_adjustments = [];
  activities = [];
}

abbrev pub one_dealer : ℤ → Table Dealer
one_dealer balance =
    (
      7,
      record {
        credit_limit = pos 1000000;
        unlimited_credit = false;
        outstanding_balance = balance;
      },
    )
    ∷ []

abbrev pub one_item : OrderItem
one_item = record {
  product_id = 30;
  quantity = 4;
  unit_price = pos 2500;
  line_total = pos 10000;
  allocated_discount = pos 0;
  net_line_total = pos 10000;
  net_unit_price = pos 2500;
}

-- An order of dealer 7, in a status, for 10000 cents.
abbrev pub order_in : OrderStatus → Order
order_in status = record {
  dealer_id = 7;
  status = status;
  subtotal = pos 10000;
  discount = pos 0;
  total_amount = pos 10000;
  approved_at = some 90000000;
  rejected_at = none;
  packed_at = some 90000000;
  delivered_at = some 90000000;
  completed_at = some 90000000;
  items = one_item ∷ [];
  created_by_rep_id = none;
  created_at = 80000000;
}

abbrev pub one_invoice : Table Invoice
one_invoice =
    (
      2,
      record {
        order_id = 1;
        dealer_id = 7;
        subtotal = pos 10000;
        discount_total = pos 0;
        grand_total = pos 10000;
        payment_status = PaymentStatus.unpaid;
      },
    )
    ∷ []

-- A dealer who owes a completed order.
abbrev pub owing : Store
owing = record nothing {
  dealers = one_dealer (pos 10000);
  orders = (1, order_in OrderStatus.completed) ∷ [];
  invoices = one_invoice;
}

-- An order that is invoiced and not yet completed.
abbrev pub ordered : OrderStatus → Store
ordered status = record nothing {
  dealers = one_dealer (pos 0);
  orders = (1, order_in status) ∷ [];
  invoices = one_invoice;
  stock = (30, 9) ∷ [];
}

-- 4000 cents in cash that dealer 7 has paid against no invoice.
abbrev pub deposit : Payment
deposit = record {
  invoice_id = none;
  dealer_id = 7;
  amount = pos 4000;
  mode = PaymentMode.cash;
  reference = none;
  payment_date = 90000000;
  created_at = 90000000;
  cheque_status = none;
  cheque_status_updated_at = none;
  bank_name = none;
  cheque_number = none;
  cheque_date = none;
  collected_date = none;
  remarks = none;
}

-- A dealer in credit, and one who also owes an order.
abbrev pub in_credit : Store
in_credit = record nothing { dealers = one_dealer (negsuc 3999); payments = (3, deposit) ∷ [] }

abbrev pub owing_in_credit : Store
owing_in_credit = record owing { dealers = one_dealer (pos 6000); payments = (3, deposit) ∷ [] }

only_row :
    (balance : ℤ) (d : ℕ) (row : Dealer)
    → lookup d (one_dealer balance) ≡ some row
    → (d ≡ 7) × (row.outstanding_balance ≡ balance)
unfolding lookup
only_row balance d row h = elim (Bool-cases (d == 7)) [
  | inl same ↦ (==→eq d 7 same, ground arith)
  | inr differ ↦ absurd (ground arith)
]

-- With one dealer, the ledger is balanced when that dealer's row is.
one_row-IsBalanced :
    (balance : ℤ) (s : Store) → s.dealers ≡ one_dealer balance → balance ≡ due 7 s → IsBalanced s
one_row-IsBalanced balance s only e d row h =
    let (who, how_much) = only_row balance d row (rw only at h) in rw (who, how_much) e

pub owing-IsBalanced : IsBalanced owing
unfolding billed counted_payments counted_refunds goods_returned ◌-ℤ◌ ◌+ℤ◌ total lookup
owing-IsBalanced = one_row-IsBalanced (pos 10000) owing refl refl

pub in_credit-IsBalanced : IsBalanced in_credit
unfolding is_effective_payment billed counted_payments counted_refunds goods_returned ◌-ℤ◌ ◌+ℤ◌
    total lookup
in_credit-IsBalanced = one_row-IsBalanced (negsuc 3999) in_credit refl refl

pub owing_in_credit-IsBalanced : IsBalanced owing_in_credit
unfolding is_effective_payment billed counted_payments counted_refunds goods_returned ◌-ℤ◌ ◌+ℤ◌
    total lookup
owing_in_credit-IsBalanced = one_row-IsBalanced (pos 6000) owing_in_credit refl refl

pub approved-IsBalanced : IsBalanced (ordered OrderStatus.approved)
unfolding billed counted_payments counted_refunds goods_returned ◌-ℤ◌ ◌+ℤ◌ total lookup
approved-IsBalanced = one_row-IsBalanced (pos 0) (ordered OrderStatus.approved) refl refl

pub delivered-IsBalanced : IsBalanced (ordered OrderStatus.delivered)
unfolding billed counted_payments counted_refunds goods_returned ◌-ℤ◌ ◌+ℤ◌ total lookup
delivered-IsBalanced = one_row-IsBalanced (pos 0) (ordered OrderStatus.delivered) refl refl
