-- ===== src/SalesReturns/Refusals.antt =====
-- The returns that `create` refuses.
use electro_mart_backend.Prelude.{
  leb, Option-cases, arith, not, some, none, refl, inr, inl, Bool-cases, ◌+◌, ltb, [], ◌||◌, ◌∷◌,
  true, false, ◌==◌, any, ◌≡◌, Bool, List, ℕ,
}
use electro_mart_backend.SalesReturns.Items.{
  compute_items_data, find_item, units_returned, no_duplicate_products, ReturnLine, price_lines,
}
use electro_mart_backend.SalesReturns.Allowance.{ordered_units}
use electro_mart_backend.Result.{
  check_cases, order_not_completed, order_not_found, exceeds_returnable, not_in_order,
  duplicate_product, Error, err,
}
use electro_mart_backend.Rows.{Order, completed, OrderItem}
use electro_mart_backend.Store.{lift, guard, or_throw, Env, Store}
use electro_mart_backend.Table.{lookup}
use electro_mart_backend.Orders.Approval.{same_order_status}
use electro_mart_backend.SalesReturns.Changes.{create, SerialReplies}

-- Is a product on two lines?
unfoldable pub has_repeats : List ReturnLine → Bool
has_repeats [] = false
has_repeats (line ∷ lines) = any (λ l. l.product_id == line.product_id) lines || has_repeats lines

-- Does a line bring back more than is left of its product?
unfoldable pub has_excess : List OrderItem → (ℕ → ℕ) → List ReturnLine → Bool
unfolding ordered_units
has_excess items returned [] = false
has_excess items returned (line ∷ lines) =
    ltb (ordered_units line.product_id items) (line.quantity + returned line.product_id)
    || has_excess items returned lines

-- Is there no such order, or is it not completed, or does the request ask for too much of it?
unfoldable pub is_refusable : ℕ → List ReturnLine → Store → Bool
unfolding has_repeats has_excess
is_refusable order_id lines s = elim (lookup order_id s.orders) [
  | none ↦ true
  | some o ↦
      not (same_order_status o.status completed)
      || has_repeats lines
      || has_excess o.items (λ p. units_returned order_id p s.sales_returns) lines
]

was_seen : List ℕ → ReturnLine → Bool
was_seen seen line = any (λ p. p == line.product_id) seen

later_seen :
    (seen : List ℕ) (id : ℕ) (lines : List ReturnLine)
    → any (was_seen seen) lines ≡ true
    → any (was_seen (id ∷ seen)) lines ≡ true
unfolding was_seen
later_seen seen id [] h = h
later_seen seen id (line ∷ lines) h = ground (arith, later_seen seen id lines)

repeat_seen :
    (seen : List ℕ) (id : ℕ) (lines : List ReturnLine)
    → any (λ l. l.product_id == id) lines ≡ true
    → any (was_seen (id ∷ seen)) lines ≡ true
unfolding was_seen
repeat_seen seen id [] h = h
repeat_seen seen id (line ∷ lines) h = ground (arith, repeat_seen seen id lines)

-- A line with a product seen before is refused, wherever it stands.
seen-refused :
    (seen : List ℕ) (lines : List ReturnLine)
    → any (was_seen seen) lines ≡ true
    → no_duplicate_products seen lines ≡ err duplicate_product
unfolding no_duplicate_products was_seen
seen-refused seen [] h = cc
seen-refused seen (line ∷ lines) h = elim (Bool-cases (was_seen seen line)) [
  | inl before ↦ rw before refl
  | inr new ↦ rw new (
      seen-refused (line.product_id ∷ seen) lines
        (later_seen seen line.product_id lines (rw new at h)))
]

-- A product that is on two lines is refused.
repeats-refused :
    (seen : List ℕ) (lines : List ReturnLine)
    → has_repeats lines ≡ true
    → no_duplicate_products seen lines ≡ err duplicate_product
unfolding no_duplicate_products was_seen has_repeats
repeats-refused seen [] h = cc
repeats-refused seen (line ∷ lines) h = elim (Bool-cases (was_seen seen line)) [
  | inl before ↦ rw before refl
  | inr new ↦ rw new (elim (Bool-cases (any (λ l. l.product_id == line.product_id) lines)) [
    | inl twice ↦
        seen-refused (line.product_id ∷ seen) lines (repeat_seen seen line.product_id lines twice)
    | inr once ↦ repeats-refused (line.product_id ∷ seen) lines (rw once at h)
  ])
]

excess-refused :
    (items : List OrderItem) (returned : ℕ → ℕ) (lines : List ReturnLine) (s : Store)
    → has_excess items returned lines ≡ true
    → (e : Error) × (price_lines items returned lines s ≡ err e)
unfolding price_lines has_excess or_throw guard lift
excess-refused items returned [] s h = cc
excess-refused items returned (line ∷ lines) s h =
    elim (Option-cases (find_item line.product_id items)) [
      | inl missing ↦ (not_in_order, rw missing refl)
      | inr (item, found) ↦
          elim (Bool-cases (leb (line.quantity + returned line.product_id) item.quantity)) [
            | inr excess ↦ (exceeds_returnable, rw (found, excess) refl)
            | inl fits ↦
                let here = rw (ordered_units, found) at h in
                let rest = excess-refused items returned lines s (ground arith) in
                (rest.0, rw (found, fits, rest.1) refl)
          ]
    ]

refused_lines :
    (order_id : ℕ) (o : Order) (lines : List ReturnLine) (date : ℕ) (serials : SerialReplies)
    (env : Env) (s : Store)
    → lookup order_id s.orders ≡ some o
    → (not (same_order_status o.status completed)
        || has_repeats lines
        || has_excess o.items (λ p. units_returned order_id p s.sales_returns) lines)
      ≡ true
    → (e : Error) × (create order_id lines date serials env s ≡ err e)
unfolding create compute_items_data or_throw guard lift
refused_lines order_id o lines date serials env s found h =
    elim (Bool-cases (same_order_status o.status completed)) [
      | inr open_ ↦ (order_not_completed, rw (found, open_) refl)
      | inl closed ↦ elim (Bool-cases (has_repeats lines)) [
        | inl twice ↦ (duplicate_product, rw (found, closed, repeats-refused [] lines twice) refl)
        | inr once ↦
            let rest =
              excess-refused o.items (λ p. units_returned order_id p s.sales_returns) lines s
                (rw (closed, once) at h) in
            elim (check_cases (no_duplicate_products [] lines)) [
              | inl fine ↦ (rest.0, rw (found, closed, fine, rest.1) refl)
              | inr (e, wrong) ↦ (e, rw (found, closed, wrong) refl)
            ]
      ]
    ]

-- A return is refused, and changes nothing, when its order does not exist or is not completed, when a
-- product is on two lines of it, and when a line of it brings back more than is left of its product.
pub create-refused :
    (order_id : ℕ) (lines : List ReturnLine) (date : ℕ) (serials : SerialReplies) (env : Env)
    (s : Store)
    → is_refusable order_id lines s ≡ true
    → (e : Error) × (create order_id lines date serials env s ≡ err e)
unfolding is_refusable create or_throw
create-refused order_id lines date serials env s h =
    elim (Option-cases (lookup order_id s.orders)) [
      | inl missing ↦ (order_not_found, rw missing refl)
      | inr (o, found) ↦
          refused_lines order_id o lines date serials env s found (rw (is_refusable, found) at h)
    ]
