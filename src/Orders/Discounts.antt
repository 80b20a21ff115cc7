-- ===== src/Orders/Discounts.antt =====
-- The share of an order's discount that each of its items carries. The two roundings are decimal.js
-- expressions, and parameters here, like the share that a percentage is: `share` is `lineTotal.mul(ratio).toDecimalPlaces(2)` for the
-- ratio of a discount to a subtotal, and `per_unit` is `netLineTotal.div(quantity).toDecimalPlaces(2)`.
use electro_mart_backend.Prelude.{
  Option, ℕ, ◌≡◌, Option, none, some, is_some, arith, List, [], ◌∷◌, ltb, if◌then◌else◌, ◌||◌,
}
use electro_mart_backend.Prelude.Int.{ℤ, pos, ◌+ℤ◌, ◌-ℤ◌, ◌≤ℤ◌, eqb_ℤ, ltb_ℤ, gtb_ℤ}
use electro_mart_backend.Result.{
  Result, ok, err, both_discounts, negative_discount, discount_too_large, discount_not_percentage,
}
use electro_mart_backend.Rows.{OrderItem}
use electro_mart_backend.Result.{Result}

-- The decimal arithmetic of the allocation.
pub record Rounding : Type 0 where
  pub share : ℤ → ℤ → ℤ → ℤ
  pub per_unit : ℤ → ℕ → ℤ
  -- `subtotal.mul(discountPercentage).div(100)`
  pub percent_of : ℤ → ℤ → ℤ

module _ (rounding : Rounding) where
  -- `lineTotal.mul(ratio)`: the ratio is zero when the subtotal or the discount is.
  unfoldable pub allocated_share : ℤ → ℤ → ℤ → ℤ
  allocated_share subtotal discount line_total =
      if eqb_ℤ subtotal (pos 0) || eqb_ℤ discount (pos 0)
      then pos 0
      else rounding.share line_total discount subtotal

  unfoldable pub allocate_item : ℤ → ℤ → OrderItem → OrderItem
  unfolding allocated_share
  allocate_item subtotal discount item =
      let allocated = allocated_share subtotal discount item.line_total in
      let net = item.line_total -ℤ allocated in
      record item {
        allocated_discount = allocated;
        net_line_total = net;
        net_unit_price = if ltb 0 item.quantity then rounding.per_unit net item.quantity else net;
      }

  -- `allocateItemDiscounts`
  unfoldable pub allocate_item_discounts : List OrderItem → ℤ → ℤ → List OrderItem
  unfolding allocate_item
  allocate_item_discounts [] subtotal discount = []
  allocate_item_discounts (item ∷ items) subtotal discount =
      allocate_item subtotal discount item ∷ allocate_item_discounts items subtotal discount

-- The discount of a request, as a percentage in hundredths of a percent, or as an amount.
pub record DiscountForm : Type 0 where
  pub percentage : Option ℤ
  pub amount : Option ℤ

abbrev pub whole : ℤ
whole = pos 10000

-- `resolveDiscount`, for an amount that is the decimal.js product and quotient `percent_of`.
unfoldable pub resolve_discount : (ℤ → ℤ → ℤ) → ℤ → DiscountForm → Result ℤ
resolve_discount percent_of subtotal form = elim form.amount [
  | none ↦ elim form.percentage [
    | none ↦ ok (pos 0)
    | some p ↦
        if ltb_ℤ p (pos 0) || gtb_ℤ p whole
        then err discount_not_percentage
        else ok (percent_of subtotal p)
  ]
  | some amount ↦
      if is_some form.percentage
      then err both_discounts
      else if ltb_ℤ amount (pos 0)
      then err negative_discount
      else if gtb_ℤ amount subtotal
      then err discount_too_large
      else ok amount
]

-- The sum of one column of the items.
unfoldable pub item_sum : (OrderItem → ℤ) → List OrderItem → ℤ
item_sum column [] = pos 0
item_sum column (item ∷ items) = column item +ℤ item_sum column items

-- A discount that `resolveDiscount` accepts is between zero and the subtotal, if the decimal
-- arithmetic keeps a percentage between zero and the whole of the subtotal in these bounds.
pub resolve_discount-bounds :
    (percent_of : ℤ → ℤ → ℤ) (subtotal : ℤ) (form : DiscountForm) (discount : ℤ)
    → pos 0 ≤ℤ subtotal
    → ((p : ℤ)
        → pos 0 ≤ℤ p
        → p ≤ℤ whole
        → (pos 0 ≤ℤ percent_of subtotal p) × (percent_of subtotal p ≤ℤ subtotal))
    → resolve_discount percent_of subtotal form ≡ ok discount
    → (pos 0 ≤ℤ discount) × (discount ≤ℤ subtotal)
unfolding resolve_discount
resolve_discount-bounds percent_of subtotal form discount positive exact e = grind (arith, exact)
