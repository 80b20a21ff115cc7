-- ===== src/Orders/Approval.antt =====
-- `applyApproval` and `approve`: the stock is reserved, the discount allocated, the invoice written.
-- Left out are the invoice's number (its sequence), its due date, and the notices sent by mail.
use electro_mart_backend.Prelude.{
  ℕ, Bool, true, false, Option, none, some, List, [], ◌∷◌, is_some, or_else, if◌then◌else◌,
}
use electro_mart_backend.Prelude.Int.{ℤ, ◌-ℤ◌}
use electro_mart_backend.Result.{order_not_found, wrong_order_status}
use electro_mart_backend.Rows.{
  Order, OrderItem, OrderStatus, pending_approval, approved, rejected, packed, delivered, completed,
  Invoice, PaymentStatus, MovementType,
}
use electro_mart_backend.Table.{lookup, insert, update}
use electro_mart_backend.Store.{
  lift, Env, M, pure, gets, guard, modify, or_throw, increment_balance, log, Activity, ◌>>=◌, ◌>>◌,
}
use electro_mart_backend.Inventory.{record_movement}
use electro_mart_backend.Orders.Discounts.{
  DiscountForm, resolve_discount, Rounding, allocate_item_discounts,
}

abbrev pub same_order_status : OrderStatus → OrderStatus → Bool
same_order_status pending_approval pending_approval = true
same_order_status approved approved = true
same_order_status rejected rejected = true
same_order_status packed packed = true
same_order_status delivered delivered = true
same_order_status completed completed = true
same_order_status _ _ = false

-- `recordMovement` for every item, in order.
unfoldable pub reserve_items : List OrderItem → M (Unit {0})
reserve_items [] = pure tt
reserve_items (item ∷ items) = do
  _ ← record_movement (record {
    product_id = item.product_id;
    type = MovementType.reserve;
    quantity_in = 0;
    quantity_out = item.quantity;
  })
  reserve_items items

unfoldable pub new_invoice : ℕ → Order → ℤ → Invoice
new_invoice id order discount = record {
  order_id = id;
  dealer_id = order.dealer_id;
  subtotal = order.subtotal;
  discount_total = discount;
  grand_total = order.subtotal -ℤ discount;
  payment_status = PaymentStatus.unpaid;
}

-- The row of an order that is approved, or approved and completed at once.
unfoldable pub approved_order : Rounding → Order → ℤ → Bool → Option ℕ → ℕ → Order
unfolding allocate_item_discounts
approved_order rounding order discount skip_allocation completion now = record order {
  status = if is_some completion then completed else approved;
  approved_at = some (or_else completion now);
  packed_at = if is_some completion then completion else order.packed_at;
  delivered_at = if is_some completion then completion else order.delivered_at;
  completed_at = if is_some completion then completion else order.completed_at;
  discount = discount;
  total_amount = order.subtotal -ℤ discount;
  items =
      if skip_allocation
      then order.items
      else allocate_item_discounts rounding order.items order.subtotal discount;
}

unfoldable pub apply_approval :
    Rounding → ℕ → Order → ℤ → Bool → Option ℕ → Activity → Env → M (Unit {0})
unfolding reserve_items new_invoice approved_order
apply_approval rounding id order discount skip_allocation completion activity env = do
  reserve_items order.items
  modify (λ s. record s { invoices = insert env.new_id (new_invoice id order discount) s.invoices })
  (if is_some completion
      then increment_balance order.dealer_id (order.subtotal -ℤ discount)
      else pure tt)
  modify (λ s. record s {
    orders =
        update id (approved_order rounding order discount skip_allocation completion env.now)
          s.orders;
  })
  log activity id

-- `approve`, with the discount of the request.
unfoldable pub approve : Rounding → ℕ → DiscountForm → Env → M (Unit {0})
unfolding apply_approval resolve_discount
approve rounding id form env = do
  order ← or_throw (← gets (λ s. lookup id s.orders)) order_not_found
  guard (same_order_status order.status pending_approval) wrong_order_status
  discount ← lift (resolve_discount rounding.percent_of order.subtotal form)
  apply_approval rounding id order discount false none Activity.approved_order env
