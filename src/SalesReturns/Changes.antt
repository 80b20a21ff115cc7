-- ===== src/SalesReturns/Changes.antt =====
-- `create`, `update` and `remove` of SalesReturnsService. The number of a return comes from its
-- sequence and is left out, like its reason. SerialLifecycleService writes the tables of units only
-- and may refuse a request, so its replies are arguments.
use electro_mart_backend.Prelude.{[], some, ◌==◌, if◌then◌else◌, ◌∷◌, none, Option, List, ℕ}
use electro_mart_backend.Rows.{completed, MovementType, Invoice, Order, ReturnItem, SalesReturn}
use electro_mart_backend.Store.{
  Activity, log, increment_balance, modify, guard, lift, ◌>>◌, gets, ◌>>=◌, pure, or_throw, Env, M,
}
use electro_mart_backend.Table.{update, insert, delete, lookup, Table}
use electro_mart_backend.SalesReturns.Items.{
  ReturnLine, no_duplicate_products, compute_items_data, items_total, assert_editable,
}
use electro_mart_backend.Result.{
  order_not_completed, sales_return_not_found, record_not_found, order_not_found, Result,
}
use electro_mart_backend.Inventory.{record_movement, Movement}
use electro_mart_backend.Invoicing.{recompute_invoice_payment_status}
use electro_mart_backend.Orders.Approval.{same_order_status}
use electro_mart_backend.Wallet.{assert_wallet_not_overdrawn}
use electro_mart_backend.Prelude.Int.{pos, ◌-ℤ◌}

-- What the calls of the serial service answer: `reverseSalesReturnUnits`, `applySalesReturnUnits` and
-- the `assert` of `beginShelfGuard`.
pub record SerialReplies : Type 0 where
  pub reversed : Result (Unit {0})
  pub applied : Result (Unit {0})
  pub shelf : Result (Unit {0})

abbrev pub into_stock : ReturnItem → Movement
into_stock item = record {
  product_id = item.product_id;
  type = MovementType.adjustment;
  quantity_in = item.quantity;
  quantity_out = 0;
}

abbrev pub out_of_stock : ReturnItem → Movement
out_of_stock item = record {
  product_id = item.product_id;
  type = MovementType.adjustment;
  quantity_in = 0;
  quantity_out = item.quantity;
}

-- `recordMovement` for every item, in order.
unfoldable pub move_items : (ReturnItem → Movement) → List ReturnItem → M (Unit {0})
move_items movement [] = pure tt
move_items movement (item ∷ items) = do
  _ ← record_movement (movement item)
  move_items movement items

-- `order.invoice.id`
unfoldable pub invoice_id_for : ℕ → Table Invoice → Option ℕ
invoice_id_for order_id [] = none
invoice_id_for order_id ((k, i) ∷ t) =
    if i.order_id == order_id then some k else invoice_id_for order_id t

-- `if (order.invoice) recomputeInvoicePaymentStatus(tx, order.invoice.id)`
unfoldable pub recompute_order_invoice : ℕ → M (Unit {0})
unfolding invoice_id_for
recompute_order_invoice order_id = do
  invoice ← gets (λ s. invoice_id_for order_id s.invoices)
  (elim invoice [ none ↦ pure tt | some id ↦ recompute_invoice_payment_status id >>= λ _. pure tt ])

unfoldable pub new_return : ℕ → Order → ℕ → List ReturnItem → ℕ → SalesReturn
unfolding items_total
new_return order_id order return_date items now = record {
  order_id = order_id;
  dealer_id = order.dealer_id;
  total_amount = items_total items;
  return_date = return_date;
  created_at = now;
  items = items;
}

unfoldable pub create : ℕ → List ReturnLine → ℕ → SerialReplies → Env → M (Unit {0})
unfolding compute_items_data no_duplicate_products move_items recompute_order_invoice new_return
create order_id lines return_date serials env = do
  order ← or_throw (← gets (λ s. lookup order_id s.orders)) order_not_found
  guard (same_order_status order.status completed) order_not_completed
  lift (no_duplicate_products [] lines)
  items ← compute_items_data order_id order lines none
  modify (λ s. record s {
    sales_returns =
        insert env.new_id (new_return order_id order return_date items env.now) s.sales_returns;
  })
  move_items into_stock items
  increment_balance order.dealer_id (pos 0 -ℤ items_total items)
  recompute_order_invoice order_id
  lift serials.applied
  log Activity.recorded_sales_return env.new_id

abbrev pub find_return : ℕ → M SalesReturn
find_return id = do or_throw (← gets (λ s. lookup id s.sales_returns)) sales_return_not_found

-- `include: { order }`, over a foreign key.
abbrev pub order_of : SalesReturn → M Order
order_of r = do or_throw (← gets (λ s. lookup r.order_id s.orders)) record_not_found

unfoldable pub edited_return : SalesReturn → ℕ → List ReturnItem → SalesReturn
unfolding items_total
edited_return r return_date items = record r {
  total_amount = items_total items;
  return_date = return_date;
  items = items;
}

-- The `update` of the service.
unfoldable pub edit : ℕ → List ReturnLine → ℕ → SerialReplies → Env → M (Unit {0})
unfolding compute_items_data no_duplicate_products assert_editable move_items
    recompute_order_invoice edited_return
edit id lines return_date serials env = do
  r ← find_return id
  lift (assert_editable r env.now)
  order ← order_of r
  guard (same_order_status order.status completed) order_not_completed
  lift (no_duplicate_products [] lines)
  lift serials.reversed
  items ← compute_items_data r.order_id order lines (some id)
  move_items out_of_stock r.items
  move_items into_stock items
  modify (λ s. record s {
    sales_returns = update id (edited_return r return_date items) s.sales_returns;
  })
  increment_balance order.dealer_id (r.total_amount -ℤ items_total items)
  assert_wallet_not_overdrawn order.dealer_id
  lift serials.applied
  lift serials.shelf
  recompute_order_invoice r.order_id
  log Activity.updated_sales_return id

unfoldable pub remove : ℕ → SerialReplies → Env → M (Unit {0})
unfolding assert_editable move_items recompute_order_invoice
remove id serials env = do
  r ← find_return id
  lift (assert_editable r env.now)
  order ← order_of r
  lift serials.reversed
  move_items out_of_stock r.items
  modify (λ s. record s { sales_returns = delete id s.sales_returns })
  increment_balance order.dealer_id r.total_amount
  recompute_order_invoice r.order_id
  assert_wallet_not_overdrawn order.dealer_id
  lift serials.shelf
  log Activity.deleted_sales_return id
