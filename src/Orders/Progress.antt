-- ===== src/Orders/Progress.antt =====
-- `reject`, `advanceStatus` and `completeDirectly`. Left out are the serial numbers, which keep their
-- own tables, and the notices sent by mail.
use electro_mart_backend.Prelude.{
  ℕ, Bool, true, false, not, Option, none, some, [], ◌∷◌, ◌==◌, or_else, if◌then◌else◌,
}
use electro_mart_backend.Result.{order_not_found, wrong_order_status, already_completed}
use electro_mart_backend.Rows.{
  Order, OrderStatus, pending_approval, approved, rejected, packed, delivered, completed, Invoice,
}
use electro_mart_backend.Table.{Table, lookup, update}
use electro_mart_backend.Store.{
  Env, M, pure, gets, guard, modify, or_throw, increment_balance, log, Activity, ◌>>=◌, ◌>>◌,
}
use electro_mart_backend.Orders.Approval.{same_order_status}

-- `include: { invoice: true }`: the invoice of an order, of which there is at most one.
unfoldable pub invoice_for : ℕ → Table Invoice → Option Invoice
invoice_for order_id [] = none
invoice_for order_id ((k, i) ∷ t) =
    if i.order_id == order_id then some i else invoice_for order_id t

-- The dealer owes the invoice from now on.
unfoldable pub bill_order : ℕ → Order → M (Unit {0})
unfolding invoice_for
bill_order id order = do
  invoice ← gets (λ s. invoice_for id s.invoices)
  (elim invoice [ none ↦ pure tt | some i ↦ increment_balance order.dealer_id i.grand_total ])

unfoldable pub rejected_order : Order → ℕ → Order
rejected_order order now = record order { status = rejected; rejected_at = some now }

unfoldable pub reject : ℕ → Env → M (Unit {0})
unfolding rejected_order
reject id env = do
  order ← or_throw (← gets (λ s. lookup id s.orders)) order_not_found
  guard (same_order_status order.status pending_approval) wrong_order_status
  modify (λ s. record s { orders = update id (rejected_order order env.now) s.orders })
  log Activity.rejected_order id

-- The values of `nextStatus`.
pub data NextStatus : Type 0 where
  to_packed to_delivered to_completed : NextStatus

-- `NEXT_STATUS`
unfoldable pub required_status : NextStatus → OrderStatus
required_status to_packed = approved
required_status to_delivered = packed
required_status to_completed = delivered

-- The update of `advanceStatus`, with the field of `TIMESTAMP_FIELD`.
unfoldable pub advanced_order : NextStatus → Order → ℕ → Order
advanced_order to_packed order now = record order { status = packed; packed_at = some now }
advanced_order to_delivered order now = record order { status = delivered; delivered_at = some now }
advanced_order to_completed order now = record order { status = completed; completed_at = some now }

abbrev pub progress_activity : NextStatus → Activity
progress_activity to_packed = Activity.order_packed
progress_activity to_delivered = Activity.order_delivered
progress_activity to_completed = Activity.order_completed

unfoldable pub bill_completion : NextStatus → ℕ → Order → M (Unit {0})
unfolding bill_order
bill_completion to_completed id order = bill_order id order
bill_completion _ id order = pure tt

unfoldable pub advance_status : ℕ → NextStatus → Env → M (Unit {0})
unfolding required_status advanced_order bill_completion
advance_status id to env = do
  order ← or_throw (← gets (λ s. lookup id s.orders)) order_not_found
  guard (same_order_status order.status (required_status to)) wrong_order_status
  bill_completion to id order
  modify (λ s. record s { orders = update id (advanced_order to order env.now) s.orders })
  log (progress_activity to) id

unfoldable pub fast_forwarded : Order → ℕ → Order
fast_forwarded order now = record order {
  status = completed;
  packed_at = some (or_else order.packed_at now);
  delivered_at = some (or_else order.delivered_at now);
  completed_at = some now;
}

-- Is the order approved, packed or delivered?
unfoldable pub is_under_way : OrderStatus → Bool
is_under_way approved = true
is_under_way packed = true
is_under_way delivered = true
is_under_way _ = false

unfoldable pub complete_directly : ℕ → Env → M (Unit {0})
unfolding bill_order fast_forwarded is_under_way
complete_directly id env = do
  order ← or_throw (← gets (λ s. lookup id s.orders)) order_not_found
  guard (not (same_order_status order.status completed)) already_completed
  guard (is_under_way order.status) wrong_order_status
  bill_order id order
  modify (λ s. record s { orders = update id (fast_forwarded order env.now) s.orders })
  log Activity.order_directly_completed id
