-- ===== src/SalesReturns/Items.antt =====
-- The lines of a return: `computeItemsData`, `assertNoDuplicateProducts` and `assertEditable`.
use electro_mart_backend.Prelude.{
  [], foldl, any, ◌==◌, if◌then◌else◌, leb, some, ◌∷◌, none, Option, List, ℕ, ◌+◌,
}
use electro_mart_backend.Table.{delete, Table}
use electro_mart_backend.Rows.{OrderItem, ReturnItem, Order, SalesReturn}
use electro_mart_backend.Result.{
  exceeds_returnable, not_in_order, return_not_editable, duplicate_product, err, ok, require,
  Result,
}
use electro_mart_backend.Prelude.Int.{pos, ◌+ℤ◌, ◌*ℕ◌, ℤ, ◌-ℤ◌}
use electro_mart_backend.Clock.{day_ms}
use electro_mart_backend.Store.{guard, ◌>>◌, or_throw, gets, ◌>>=◌, pure, M}

-- A line of the request (`SalesReturnItemDto`), less its serial numbers.
pub record ReturnLine : Type 0 where
  pub product_id : ℕ
  pub quantity : ℕ

-- `order.items.find((oi) => oi.productId === item.productId)`
unfoldable pub find_item : ℕ → List OrderItem → Option OrderItem
find_item product [] = none
find_item product (item ∷ items) =
    if item.product_id == product then some item else find_item product items

-- The units of a product among the lines of a return.
unfoldable pub units_of : ℕ → List ReturnItem → ℕ
units_of product [] = 0
units_of product (item ∷ items) =
    if item.product_id == product
    then item.quantity + units_of product items
    else units_of product items

-- `groupBy({ by: ['productId'], where: { salesReturn: { orderId } }, _sum: { quantity } })`
unfoldable pub units_returned : ℕ → ℕ → Table SalesReturn → ℕ
unfolding units_of
units_returned order_id product [] = 0
units_returned order_id product ((_, r) ∷ t) =
    if r.order_id == order_id
    then units_of product r.items + units_returned order_id product t
    else units_returned order_id product t

-- The filter `id: { not: excludeReturnId }`.
abbrev pub other_returns : Option ℕ → Table SalesReturn → Table SalesReturn
other_returns none t = t
other_returns (some id) t = delete id t

-- The row of a line, priced off what the dealer paid for a unit.
unfoldable pub return_item : OrderItem → ReturnLine → ReturnItem
return_item item line = record {
  product_id = line.product_id;
  quantity = line.quantity;
  unit_price = item.unit_price;
  allocated_discount = (item.unit_price -ℤ item.net_unit_price) *ℕ line.quantity;
  line_total = item.net_unit_price *ℕ line.quantity;
}

-- The lines in order, against `returnedMap`. A quantity above what remains of the order's is refused.
unfoldable pub price_lines : List OrderItem → (ℕ → ℕ) → List ReturnLine → M (List ReturnItem)
unfolding find_item return_item
price_lines items returned [] = pure []
price_lines items returned (line ∷ lines) = do
  item ← or_throw (find_item line.product_id items) not_in_order
  guard (leb (line.quantity + returned line.product_id) item.quantity) exceeds_returnable
  rest ← price_lines items returned lines
  pure (return_item item line ∷ rest)

-- `totalAmount`
unfoldable pub items_total : List ReturnItem → ℤ
items_total = foldl (λ sum item. sum +ℤ item.line_total) (pos 0)

unfoldable pub compute_items_data : ℕ → Order → List ReturnLine → Option ℕ → M (List ReturnItem)
unfolding price_lines units_returned
compute_items_data order_id order lines excluded = do
  returns ← gets (λ s. other_returns excluded s.sales_returns)
  price_lines order.items (λ product. units_returned order_id product returns) lines

-- `assertNoDuplicateProducts`, with the products of the lines before.
unfoldable pub no_duplicate_products : List ℕ → List ReturnLine → Result (Unit {0})
no_duplicate_products seen [] = ok tt
no_duplicate_products seen (line ∷ lines) =
    if any (λ p. p == line.product_id) seen
    then err duplicate_product
    else no_duplicate_products (line.product_id ∷ seen) lines

unfoldable pub assert_editable : SalesReturn → ℕ → Result (Unit {0})
assert_editable r now = require (leb now (r.created_at + day_ms)) return_not_editable
