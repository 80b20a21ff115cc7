-- ===== src/Examples/Goods.antt =====
-- What the services do with orders and stock, on small databases.
use electro_mart_backend.Prelude.{
  ◌+◌, ◌≤◌, Option, false, ◌/◌, ◌*◌, sym, ◌∙◌, ℕ, ◌≡◌, refl, none, some, [], ◌∷◌, arith,
}
use electro_mart_backend.Prelude.Int.{pos_part, ℤ, pos, ◌≤ℤ◌, ◌+ℤ◌}
use electro_mart_backend.Result.{ok, err, Result}
use electro_mart_backend.Rows.{OrderStatus, Order, Invoice}
use electro_mart_backend.Table.{lookup, insert}
use electro_mart_backend.Store.After.{After}
use electro_mart_backend.Ledger.{IsBalanced}
use electro_mart_backend.Inventory.Adjustment.{Direction, AdjustStock, SerialOutcome, adjust_stock}
use electro_mart_backend.Inventory.Adjusted.{IsAdjusted, adjust_stock-IsAdjusted}
use electro_mart_backend.Inventory.Shifted.{IsShifted}
use electro_mart_backend.Orders.Allocation.{IsRounded, allocate_item_discounts-item_sum}
use electro_mart_backend.Inventory.Reconciled.{last_balance, went_out, came_in, IsReconciled}
use electro_mart_backend.Orders.Discounts.{
  Rounding, DiscountForm, whole, resolve_discount, resolve_discount-bounds, item_sum,
  allocate_item_discounts,
}
use electro_mart_backend.Orders.Approval.{approve}
use electro_mart_backend.Orders.Stock.{approve-IsReserved, units_ordered}
use electro_mart_backend.Orders.Progress.{
  to_packed, to_completed, advance_status, complete_directly, invoice_for,
}
use electro_mart_backend.Orders.Round.{advance_status-completes, status_of}
use electro_mart_backend.Orders.Progress.{to_delivered}
use electro_mart_backend.Store.{log, or_throw, lift, guard, Store, ◌>>◌}
use electro_mart_backend.Rows.{Dealer, PaymentStatus}
use electro_mart_backend.Orders.Completion.{
  IsInvoicedOnce, complete_directly-IsBalanced, advance_status-IsBalanced,
}
use electro_mart_backend.Orders.Statuses.{
  has_stamps, IsStamped, handle_order, advance_order, handle_order-IsStamped,
}
use electro_mart_backend.Orders.CreditLimit.{
  is_over, assert_within_credit_limit, IsWithinLimit, gate-IsWithinLimit,
}
use electro_mart_backend.Examples.Data.{
  env, ordered, order_in, one_item, one_invoice, approved-IsBalanced, delivered-IsBalanced,
}
use electro_mart_backend.Inventory.{logged, moved, can_move, record_movement}

row_dealer :
    (status : OrderStatus) (id : ℕ) (o : Order)
    → lookup id (ordered status).orders ≡ some o
    → o.dealer_id ≡ 7
unfolding lookup
row_dealer status id o found = ground arith

invoice_dealer : (id : ℕ) (i : Invoice) → invoice_for id one_invoice ≡ some i → i.dealer_id ≡ 7
unfolding invoice_for
invoice_dealer id i e = ground arith

invoiced_once : (status : OrderStatus) → IsInvoicedOnce (ordered status)
invoiced_once status =
    ((tt, tt), λ id o i found e. invoice_dealer id i e ∙ sym (row_dealer status id o found))

complete_directly-IsBalanced_example :
    After (complete_directly 1 env (ordered OrderStatus.approved)) (λ _ t. IsBalanced t)
complete_directly-IsBalanced_example =
    complete_directly-IsBalanced 1 env (ordered OrderStatus.approved)
      (invoiced_once OrderStatus.approved) approved-IsBalanced

advance_status-IsBalanced_example :
    After (advance_status 1 to_completed env (ordered OrderStatus.delivered)) (λ _ t. IsBalanced t)
advance_status-IsBalanced_example =
    advance_status-IsBalanced 1 to_completed env (ordered OrderStatus.delivered)
      (invoiced_once OrderStatus.delivered) delivered-IsBalanced

opening_stock : (status : OrderStatus) → IsReconciled (λ _. 9) (ordered status)
unfolding lookup came_in went_out last_balance
opening_stock status id stock found = ground arith

abbrev four_lost : AdjustStock
four_lost = record { product_id = 30; direction = Direction.stock_out; quantity = 4 }

abbrev one_serial : SerialOutcome
one_serial = record { normalized = ok 1; written_off = ok tt; registered = ok tt; shelf = ok tt }

adjust_stock-IsAdjusted_example :
    After (adjust_stock four_lost one_serial (ordered OrderStatus.approved)) (λ balance t.
      IsReconciled (λ _. 9) t × IsAdjusted four_lost balance (ordered OrderStatus.approved) t)
adjust_stock-IsAdjusted_example =
    adjust_stock-IsAdjusted (λ _. 9) four_lost one_serial (ordered OrderStatus.approved)
      (opening_stock OrderStatus.approved)

abbrev reported : Result (ℕ × Store) → Option ℕ
reported (ok (stock, _)) = some stock
reported (err _) = none

-- The adjustment of the example commits: five of the nine units are left.
five_left : reported (adjust_stock four_lost one_serial (ordered OrderStatus.approved)) ≡ some 5
unfolding adjust_stock record_movement guard lift or_throw log lookup can_move moved logged
five_left = refl

-- A percentage of an amount, in hundredths of a percent, rounded down.
abbrev floor_percent : ℤ → ℤ → ℤ
floor_percent subtotal p = pos (pos_part subtotal * pos_part p / 10000)

-- A discount of an eighth.
abbrev an_eighth : DiscountForm
an_eighth = record { percentage = some (pos 1250); amount = none }

-- Amounts in cents, rounded down.
abbrev by_floor : Rounding
by_floor = record {
  share = λ line discount subtotal. pos (pos_part line * pos_part discount / pos_part subtotal);
  per_unit = λ net quantity. pos (pos_part net / quantity);
  percent_of = floor_percent;
}

approve-IsReserved_example :
    After (approve by_floor 1 an_eighth env (ordered OrderStatus.pending_approval)) (λ _ t.
      IsReconciled (λ _. 9) t
      × ((o : Order) × (lookup 1 (ordered OrderStatus.pending_approval).orders ≡ some o)
          × IsShifted (λ _. 0) (units_ordered o.items) (ordered OrderStatus.pending_approval) t))
approve-IsReserved_example =
    approve-IsReserved (λ _. 9) by_floor 1 an_eighth env (ordered OrderStatus.pending_approval)
      (opening_stock OrderStatus.pending_approval)

approved-IsStamped : IsStamped (ordered OrderStatus.approved)
unfolding has_stamps
approved-IsStamped = (refl, tt)

handle_order-IsStamped_example :
    After
      (handle_order by_floor 1 (advance_order to_packed) env (ordered OrderStatus.approved))
      (λ _ t. IsStamped t)
handle_order-IsStamped_example =
    handle_order-IsStamped by_floor 1 (advance_order to_packed) env (ordered OrderStatus.approved)
      approved-IsStamped

open_status : is_over OrderStatus.pending_approval ≡ false
unfolding is_over
open_status = refl

gate-IsWithinLimit_example :
    After (assert_within_credit_limit 7 (pos 10000) none (ordered OrderStatus.approved)) (λ _ t.
      IsWithinLimit 7
        (record t { orders = insert 50 (order_in OrderStatus.pending_approval) t.orders }))
gate-IsWithinLimit_example =
    gate-IsWithinLimit 7 50 (order_in OrderStatus.pending_approval) (ordered OrderStatus.approved)
      refl open_status

-- Rounding a share down takes less than a cent off it.
by_floor-IsRounded : IsRounded by_floor
by_floor-IsRounded l d s some_ = (l * d / s, refl, (grind arith, grind arith))

one_item_total : item_sum (λ i. i.line_total) (one_item ∷ []) ≡ pos 10000
unfolding item_sum ◌+ℤ◌
one_item_total = refl

allocate_item_discounts-item_sum_example :
    (r : ℕ) × (item_sum
        (λ i. i.allocated_discount)
        (allocate_item_discounts by_floor (one_item ∷ []) (pos 10000) (pos 500))
      ≡ pos r)
    × (r ≤ 500 + 1)
    × (500 ≤ r + 1)
allocate_item_discounts-item_sum_example =
    allocate_item_discounts-item_sum by_floor (one_item ∷ []) 500 10000 by_floor-IsRounded
      (omega arith) (omega arith, tt) one_item_total

floor_percent-bounds :
    (p : ℤ)
    → pos 0 ≤ℤ p
    → p ≤ℤ whole
    → (pos 0 ≤ℤ floor_percent (pos 10000) p) × (floor_percent (pos 10000) p ≤ℤ pos 10000)
floor_percent-bounds p positive most = ground arith

an_eighth_resolved : resolve_discount floor_percent (pos 10000) an_eighth ≡ ok (pos 1250)
unfolding resolve_discount
an_eighth_resolved = refl

resolve_discount-bounds_example : (pos 0 ≤ℤ pos 1250) × (pos 1250 ≤ℤ pos 10000)
resolve_discount-bounds_example =
    resolve_discount-bounds floor_percent (pos 10000) an_eighth (pos 1250) (omega arith)
      floor_percent-bounds an_eighth_resolved

found_order : lookup 1 (ordered OrderStatus.approved).orders ≡ some (order_in OrderStatus.approved)
unfolding lookup
found_order = refl

abbrev the_invoice : Invoice
the_invoice = record {
  order_id = 1;
  dealer_id = 7;
  subtotal = pos 10000;
  discount_total = pos 0;
  grand_total = pos 10000;
  payment_status = PaymentStatus.unpaid;
}

found_invoice : invoice_for 1 (ordered OrderStatus.approved).invoices ≡ some the_invoice
unfolding invoice_for
found_invoice = refl

abbrev the_dealer : Dealer
the_dealer = record {
  credit_limit = pos 1000000;
  unlimited_credit = false;
  outstanding_balance = pos 0;
}

found_dealer : lookup 7 (ordered OrderStatus.approved).dealers ≡ some the_dealer
unfolding lookup
found_dealer = refl

advance_status-completes_example :
    (t : Store) × ((advance_status 1 to_packed env
          >> (advance_status 1 to_delivered env >> advance_status 1 to_completed env))
        (ordered OrderStatus.approved)
      ≡ ok (tt, t))
    × (status_of (lookup 1 t.orders) ≡ some OrderStatus.completed)
    × (lookup 7 t.dealers ≡ some (record the_dealer { outstanding_balance = pos 0 +ℤ pos 10000 }))
advance_status-completes_example =
    advance_status-completes 1 (order_in OrderStatus.approved) the_invoice the_dealer env env env
      (ordered OrderStatus.approved) found_order refl found_invoice found_dealer
