-- ===== src/SalesReturns/Allowance.antt =====
-- The units of an order that come back are at most those that were ordered.
use electro_mart_backend.Prelude.{
  ==→eq, false, inr, inl, Bool-cases, any, none, refl, [], true, arith, ◌+◌, leb, ◌==◌, ◌≤◌, some,
  if◌then◌else◌, All, ◌≡◌, ◌∷◌, List, ℕ,
}
use electro_mart_backend.SalesReturns.Items.{
  return_item, find_item, price_lines, no_duplicate_products, ReturnLine, units_returned, units_of,
}
use electro_mart_backend.Rows.{SalesReturn, Order, ReturnItem, OrderItem}
use electro_mart_backend.Table.{lookup, update, delete, Table}
use electro_mart_backend.Store.{Store}
use electro_mart_backend.Store.After.{guard-Reads, or_throw-Reads, next-Reads, passes, Reads}
use electro_mart_backend.Result.{ok}

-- What the order has of a product.
unfoldable pub ordered_units : ℕ → List OrderItem → ℕ
unfolding find_item
ordered_units product items = elim (find_item product items) [ none ↦ 0 | some i ↦ i.quantity ]

-- What a request brings back of a product.
unfoldable pub requested : ℕ → List ReturnLine → ℕ
requested product [] = 0
requested product (line ∷ lines) =
    if line.product_id == product
    then line.quantity + requested product lines
    else requested product lines

abbrev pub IsWithinOrder : Table Order → Table SalesReturn → Type 0
IsWithinOrder orders returns =
    (id : ℕ) (o : Order)
    → lookup id orders ≡ some o
    → (product : ℕ) → units_returned id product returns ≤ ordered_units product o.items

-- What the priced rows are to the lines of the request.
abbrev pub IsPriced : List OrderItem → (ℕ → ℕ) → List ReturnLine → List ReturnItem → Type 0
IsPriced items returned lines rows =
    ((product : ℕ) → units_of product rows ≡ requested product lines)
    × All (λ l. l.quantity + returned l.product_id ≤ ordered_units l.product_id items) lines

IsPriced-cons :
    (items : List OrderItem) (returned : ℕ → ℕ) (line : ReturnLine) (lines : List ReturnLine)
    (item : OrderItem) (rows : List ReturnItem)
    → find_item line.product_id items ≡ some item
    → leb (line.quantity + returned line.product_id) item.quantity ≡ true
    → IsPriced items returned lines rows
    → IsPriced items returned (line ∷ lines) (return_item item line ∷ rows)
unfolding units_of requested return_item ordered_units
IsPriced-cons items returned line lines item rows found fits (same, within) =
    ((λ product. rw (same product) refl), (rw (ordered_units, found) (ground arith), within))

pub price_lines-Reads :
    (items : List OrderItem) (returned : ℕ → ℕ) (lines : List ReturnLine) (s : Store)
    → Reads (price_lines items returned lines s) s (IsPriced items returned lines)
unfolding price_lines units_of requested
price_lines-Reads items returned [] s = passes [] refl ((λ _. refl), tt)
price_lines-Reads items returned (line ∷ lines) s =
    next-Reads _ (or_throw-Reads (find_item line.product_id items) _ s) (λ item found.
      next-Reads _ (guard-Reads _ _ s) (λ _ fits.
        next-Reads _ (price_lines-Reads items returned lines s) (λ rows priced.
          passes (return_item item line ∷ rows) refl
            (IsPriced-cons items returned line lines item rows found fits priced))))

fresh_line :
    (seen : List ℕ) (line : ReturnLine) (lines : List ReturnLine)
    → no_duplicate_products seen (line ∷ lines) ≡ ok tt
    → (any (λ p. p == line.product_id) seen ≡ false)
      × (no_duplicate_products (line.product_id ∷ seen) lines ≡ ok tt)
unfolding no_duplicate_products
fresh_line seen line lines h = ground arith

-- A product that was seen before is in no later line.
seen-requested :
    (seen : List ℕ) (lines : List ReturnLine)
    → no_duplicate_products seen lines ≡ ok tt
    → (product : ℕ) → any (λ p. p == product) seen ≡ true
    → requested product lines ≡ 0
unfolding requested
seen-requested seen [] h product before = refl
seen-requested seen (line ∷ lines) h product before =
    let (new, later) = fresh_line seen line lines h in
    elim (Bool-cases (line.product_id == product)) [
      | inl same ↦
          absurd (let e = ==→eq line.product_id product same in let gone = rw e at new in cc)
      | inr differ ↦
          rw differ
            (seen-requested (line.product_id ∷ seen) lines later product (rw before (ground arith)))
    ]

pub requested_within :
    (items : List OrderItem) (returned : ℕ → ℕ) (seen : List ℕ) (lines : List ReturnLine)
    → no_duplicate_products seen lines ≡ ok tt
    → All (λ l. l.quantity + returned l.product_id ≤ ordered_units l.product_id items) lines
    → (product : ℕ) → returned product ≤ ordered_units product items
    → requested product lines + returned product ≤ ordered_units product items
unfolding requested
requested_within items returned seen [] h all product room = omega arith
requested_within items returned seen (line ∷ lines) h (fits, all) product room =
    let (new, later) = fresh_line seen line lines h in
    elim (Bool-cases (line.product_id == product)) [
      | inl same ↦
          let last = seen-requested (line.product_id ∷ seen) lines later product (rw same refl) in
          let own = rw (==→eq line.product_id product same) at fits in rw (same, last) (omega arith)
      | inr differ ↦
          rw differ
            (requested_within items returned (line.product_id ∷ seen) lines later all product room)
    ]

pub units_returned-delete :
    (order_id product id : ℕ) (t : Table SalesReturn)
    → units_returned order_id product (delete id t) ≤ units_returned order_id product t
unfolding units_returned delete
units_returned-delete order_id product id [] = ground arith
units_returned-delete order_id product id ((k, r) ∷ t) =
    grind (arith, units_returned-delete order_id product id t)

pub units_returned-update :
    (order_id product id : ℕ) (new old : SalesReturn) (t : Table SalesReturn)
    → lookup id t ≡ some old
    → new.order_id ≡ old.order_id
    → units_returned order_id product (update id new t) ≡ (
        if old.order_id == order_id
        then units_of product new.items + units_returned order_id product (delete id t)
        else units_returned order_id product (delete id t))
unfolding units_returned delete update lookup
units_returned-update order_id product id new old [] found same = cc
units_returned-update order_id product id new old ((k, r) ∷ t) found same =
    grind (arith, units_returned-update order_id product id new old t)
