-- ===== src/Orders/CreditLimit.antt =====
-- `sumInFlightOrderTotals` and `assertWithinCreditLimit`, the gate of every new and edited order.
use electro_mart_backend.Prelude.{
  [], ◌∷◌, ◌∙◌, sym, ==_refl, ℕ, ◌≡◌, refl, Bool, true, false, not, ◌&&◌, ◌||◌, Option, none, some,
  ◌==◌, if◌then◌else◌,
}
use electro_mart_backend.Prelude.Int.{ℤ, pos, ◌+ℤ◌, ◌≤ℤ◌, gtb_ℤ, int_laws}
use electro_mart_backend.Result.{record_not_found, exceeds_credit_limit}
use electro_mart_backend.Rows.{
  Dealer, Order, OrderStatus, pending_approval, approved, rejected, packed, delivered, completed,
}
use electro_mart_backend.Table.{Table, insert, lookup}
use electro_mart_backend.Table.Sums.{total}
use electro_mart_backend.Store.{Store, M, pure, gets, guard, or_throw, ◌>>=◌, ◌>>◌}
use electro_mart_backend.Store.After.{
  Reads-After, After, Reads, next-Reads, or_throw-Reads, guard-Reads, passes,
}

-- `IN_FLIGHT_ORDER_STATUSES`
unfoldable pub is_in_flight : OrderStatus → Bool
is_in_flight pending_approval = true
is_in_flight approved = true
is_in_flight packed = true
is_in_flight delivered = true
is_in_flight _ = false

abbrev pub is_excluded : Option ℕ → ℕ → Bool
is_excluded none id = false
is_excluded (some excluded) id = id == excluded

unfoldable pub sum_in_flight_order_totals : ℕ → Option ℕ → Store → ℤ
unfolding is_in_flight
sum_in_flight_order_totals dealer_id exclude s =
    total
      (λ id o.
        if o.dealer_id == dealer_id && is_in_flight o.status && not (is_excluded exclude id)
        then o.total_amount
        else pos 0)
      s.orders

-- What the dealer owes once every order under way is completed, this one too.
unfoldable pub projected_outstanding : Dealer → ℕ → ℤ → Option ℕ → Store → ℤ
unfolding sum_in_flight_order_totals
projected_outstanding row dealer_id additional exclude s =
    row.outstanding_balance +ℤ sum_in_flight_order_totals dealer_id exclude s +ℤ additional

unfoldable pub assert_within_credit_limit : ℕ → ℤ → Option ℕ → M Dealer
unfolding projected_outstanding
assert_within_credit_limit dealer_id additional exclude = do
  row ← or_throw (← gets (λ s. lookup dealer_id s.dealers)) record_not_found
  projected ← gets (projected_outstanding row dealer_id additional exclude)
  guard (row.unlimited_credit || not (gtb_ℤ projected row.credit_limit)) exceeds_credit_limit
  pure row

-- What the gate has found when it lets an amount pass.
pub assert_within_credit_limit-Reads :
    (dealer_id : ℕ) (additional : ℤ) (exclude : Option ℕ) (s : Store)
    → Reads (assert_within_credit_limit dealer_id additional exclude s) s (λ row.
      (lookup dealer_id s.dealers ≡ some row)
      × ((row.unlimited_credit
            || not
                (gtb_ℤ (projected_outstanding row dealer_id additional exclude s) row.credit_limit))
          ≡ true))
unfolding assert_within_credit_limit
assert_within_credit_limit-Reads dealer_id additional exclude s =
    next-Reads _ (or_throw-Reads (lookup dealer_id s.dealers) _ s)
      (λ row found. next-Reads _ (guard-Reads _ _ s) (λ _ passed. passes row refl (found, passed)))

-- An order that will not be billed any more: rejected, or completed and billed.
unfoldable pub is_over : OrderStatus → Bool
is_over rejected = true
is_over completed = true
is_over _ = false

-- The totals of a dealer's orders that are still to be billed.
unfoldable pub open_total : ℕ → Table Order → ℤ
unfolding is_over
open_total dealer_id [] = pos 0
open_total dealer_id ((_, o) ∷ t) =
    if o.dealer_id == dealer_id && not (is_over o.status)
    then o.total_amount +ℤ open_total dealer_id t
    else open_total dealer_id t

-- Is what the dealer owes, with every open order billed as well, within the limit?
unfoldable pub IsWithinLimit : ℕ → Store → Type 0
IsWithinLimit dealer_id s =
    (row : Dealer)
    → lookup dealer_id s.dealers ≡ some row
    → row.unlimited_credit ≡ false
    → row.outstanding_balance +ℤ open_total dealer_id s.orders ≤ℤ row.credit_limit

in_flight_open : (status : OrderStatus) → is_in_flight status ≡ not (is_over status)
unfolding is_in_flight is_over
in_flight_open pending_approval = refl
in_flight_open approved = refl
in_flight_open rejected = refl
in_flight_open packed = refl
in_flight_open delivered = refl
in_flight_open completed = refl

sum_in_flight-open_total :
    (dealer_id : ℕ) (t : Table Order)
    → total
        (λ id o.
          if o.dealer_id == dealer_id && is_in_flight o.status && not (is_excluded none id)
          then o.total_amount
          else pos 0)
        t
      ≡ open_total dealer_id t
unfolding total open_total
sum_in_flight-open_total dealer_id [] = refl
sum_in_flight-open_total dealer_id ((id, o) ∷ t) =
    rw (in_flight_open o.status) (grind (int_laws, sum_in_flight-open_total dealer_id t))

same_row : (a b : Dealer) → some a ≡ some b → a ≡ b
same_row a b e = cc

projected-insert :
    (dealer_id new_id : ℕ) (order : Order) (row : Dealer) (s : Store)
    → order.dealer_id ≡ dealer_id
    → is_over order.status ≡ false
    → row.outstanding_balance +ℤ open_total dealer_id (insert new_id order s.orders)
      ≡ projected_outstanding row dealer_id order.total_amount none s
unfolding projected_outstanding sum_in_flight_order_totals open_total insert
projected-insert dealer_id new_id order row s own open_order =
    rw (sum_in_flight-open_total dealer_id s.orders, own, ==_refl dealer_id, open_order)
      (omega int_laws)

-- An order that is still to be billed and is written after the gate has let its total pass leaves its
-- dealer within the credit limit: the stored balance and the totals of all the dealer's orders that
-- are neither rejected nor completed, this one included, come to the limit at most.
pub gate-IsWithinLimit :
    (dealer_id new_id : ℕ) (order : Order) (s : Store)
    → order.dealer_id ≡ dealer_id
    → is_over order.status ≡ false
    → After
        (assert_within_credit_limit dealer_id order.total_amount none s)
        (λ _ t. IsWithinLimit dealer_id (record t { orders = insert new_id order t.orders }))
unfolding IsWithinLimit
gate-IsWithinLimit dealer_id new_id order s own open_order =
    Reads-After (assert_within_credit_limit-Reads dealer_id order.total_amount none s)
      (λ row (found, passed) again found_again limited. grind (
        int_laws,
        projected-insert dealer_id new_id order row s own open_order,
        same_row row again (sym found ∙ found_again),
      ))
