-- ===== src/SalesReturns/Honest.antt =====
-- Every change of the table of returns keeps it honest.
use electro_mart_backend.Prelude.{
  ==→eq, refl, false, arith, ◌≤◌, ==_refl, inr, inl, ◌==◌, Bool-cases, [], some, Option, List, ◌≡◌,
  ℕ,
}
use electro_mart_backend.SalesReturns.Changes.{edited_return, new_return}
use electro_mart_backend.Store.{Store}
use electro_mart_backend.SalesReturns.Items.{
  other_returns, no_duplicate_products, ReturnLine, units_returned, compute_items_data,
}
use electro_mart_backend.SalesReturns.Steps.{IsHonest}
use electro_mart_backend.Table.{update, Table, delete, lookup, insert}
use electro_mart_backend.Rows.{SalesReturn, ReturnItem, Order}
use electro_mart_backend.Result.{ok}
use electro_mart_backend.Store.After.{Reads}
use electro_mart_backend.SalesReturns.Allowance.{
  units_returned-update, IsWithinOrder, ordered_units, units_returned-delete, requested_within,
  price_lines-Reads, IsPriced,
}
use electro_mart_backend.Table.Predicates.{
  AllRows-lookup, AllRows-update, AllRows-delete, AllRows-insert,
}

pub compute-Reads :
    (order_id : ℕ) (o : Order) (lines : List ReturnLine) (excluded : Option ℕ) (s : Store)
    → Reads (compute_items_data order_id o lines excluded s) s (
        IsPriced o.items
          (λ p. units_returned order_id p (other_returns excluded s.sales_returns))
          lines)
unfolding compute_items_data
compute-Reads order_id o lines excluded s = price_lines-Reads o.items _ lines s

-- What a table of returns holds of one order, against what was ordered, whatever the other orders.
recounted :
    (orders : Table Order) (old new : Table SalesReturn) (order_id : ℕ) (o : Order)
    → lookup order_id orders ≡ some o
    → ((product : ℕ) → units_returned order_id product new ≤ ordered_units product o.items)
    → ((id product : ℕ)
        → (order_id == id) ≡ false
        → units_returned id product new ≤ units_returned id product old)
    → IsWithinOrder orders old
    → IsWithinOrder orders new
recounted orders old new order_id o found here elsewhere within id other e product =
    elim (Bool-cases (order_id == id)) [
      | inl own ↦ grind (arith, ==→eq order_id id own, here product)
      | inr differ ↦ grind (arith, elsewhere id product differ, within id other e product)
    ]

pub inserted-IsHonest :
    (k order_id : ℕ) (o : Order) (lines : List ReturnLine) (items : List ReturnItem) (date now : ℕ)
    (s : Store)
    → lookup order_id s.orders ≡ some o
    → no_duplicate_products [] lines ≡ ok tt
    → IsPriced o.items (λ p. units_returned order_id p s.sales_returns) lines items
    → IsHonest s
    → IsHonest (record s {
      sales_returns = insert k (new_return order_id o date items now) s.sales_returns;
    })
unfolding new_return insert units_returned
inserted-IsHonest k order_id o lines items date now s found once (same, fits) (owned, within) = (
  AllRows-insert _ k (new_return order_id o date items now) s.sales_returns owned (λ other e. cc),
  recounted s.orders s.sales_returns
      (insert k (new_return order_id o date items now) s.sales_returns) order_id o found
      (λ product.
        rw (==_refl order_id, same product)
          (requested_within o.items _ [] lines once fits product (within order_id o found product)))
      (λ id product differ. rw differ (omega arith)) within,
)

pub edited-IsHonest :
    (k : ℕ) (r : SalesReturn) (o : Order) (lines : List ReturnLine) (items : List ReturnItem)
    (date : ℕ) (s : Store)
    → lookup k s.sales_returns ≡ some r
    → lookup r.order_id s.orders ≡ some o
    → no_duplicate_products [] lines ≡ ok tt
    → IsPriced o.items (λ p. units_returned r.order_id p (delete k s.sales_returns)) lines items
    → IsHonest s
    → IsHonest (record s { sales_returns = update k (edited_return r date items) s.sales_returns })
unfolding edited_return
edited-IsHonest k r o lines items date s found ordered once (same, fits) (owned, within) = (
  AllRows-update _ k _ s.sales_returns owned (AllRows-lookup _ k r s.sales_returns owned found),
  recounted s.orders s.sales_returns (update k (edited_return r date items) s.sales_returns)
      r.order_id o ordered
      (λ product.
        rw
          (
            units_returned-update r.order_id product k (edited_return r date items) r
                s.sales_returns found refl,
            ==_refl r.order_id,
            same product,
          )
          (let fewer = units_returned-delete r.order_id product k s.sales_returns in
            let room = within r.order_id o ordered product in
            requested_within o.items _ [] lines once fits product (omega arith)))
      (λ id product differ.
        rw
          (
            units_returned-update id product k (edited_return r date items) r s.sales_returns found
                refl,
            differ,
          )
          (units_returned-delete id product k s.sales_returns))
      within,
)

pub deleted-IsHonest :
    (k : ℕ) (s : Store)
    → IsHonest s
    → IsHonest (record s { sales_returns = delete k s.sales_returns })
deleted-IsHonest k s (owned, within) = (
  AllRows-delete _ k s.sales_returns owned,
  λ id o found product.
      let fewer = units_returned-delete id product k s.sales_returns in
      let room = within id o found product in omega arith,
)
