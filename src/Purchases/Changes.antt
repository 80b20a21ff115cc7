-- ===== src/Purchases/Changes.antt =====
-- `create`, `update` and `remove` of PurchasesService. SerialLifecycleService writes the tables of
-- units only and may refuse a request, so its replies are arguments; a purchase's invoice number is
-- left out.
use electro_mart_backend.Prelude.{
  not, ◌&&◌, [], some, is_some, none, same_id, any, true, ◌∷◌, Bool, or_else, foldl, Option, List,
  ℕ,
}
use electro_mart_backend.Store.{
  Activity, log, lift, gets, modify, guard, ◌>>=◌, ◌>>◌, or_throw, M, Store, Env,
}
use electro_mart_backend.Rows.{MovementType, PurchaseItem, Purchase}
use electro_mart_backend.Result.{
  purchase_has_refunds, supplier_overpaid, purchase_has_returns, purchase_is_cancelled,
  product_not_found, purchase_not_found, supplier_not_found, Result,
}
use electro_mart_backend.Prelude.Int.{ltb_ℤ, pos, ◌+ℤ◌, ◌*ℕ◌, ℤ}
use electro_mart_backend.Suppliers.Balance.{compute_supplier_balance}
use electro_mart_backend.Table.{update, delete, insert, lookup}
use electro_mart_backend.Inventory.{record_movements, Movement}

-- PurchaseItemDto and CreatePurchaseDto, less the serial numbers.
pub record PurchaseLine : Type 0 where
  pub product_id : ℕ
  pub quantity : ℕ
  pub unit_cost : ℤ

pub record PurchaseForm : Type 0 where
  pub supplier_id : ℕ
  pub purchase_date : ℕ
  pub items : List PurchaseLine
  pub transport_charges : Option ℤ

-- What the calls of the serial service answer: `assertPurchaseEditable`, `registerForPurchase`,
-- `deletePurchaseUnits` and the `assert` of `beginShelfGuard`.
pub record SerialAnswers : Type 0 where
  pub editable : Result (Unit {0})
  pub registered : Result (Unit {0})
  pub removed : Result (Unit {0})
  pub shelf : Result (Unit {0})

-- Is every product of the lines there?
unfoldable pub products_exist : List PurchaseLine → Store → Bool
products_exist [] s = true
products_exist (line ∷ lines) s = is_some (lookup line.product_id s.stock) && products_exist lines s

unfoldable pub assert_supplier_and_products_exist : ℕ → List PurchaseLine → M (Unit {0})
unfolding products_exist
assert_supplier_and_products_exist supplier_id lines = do
  or_throw (← gets (λ s. lookup supplier_id s.suppliers)) supplier_not_found
  found ← gets (products_exist lines)
  guard found product_not_found

abbrev pub new_item : PurchaseLine → PurchaseItem
new_item line = record {
  product_id = line.product_id;
  quantity = line.quantity;
  unit_cost = line.unit_cost;
  line_total = line.unit_cost *ℕ line.quantity;
}

-- `totalValue`
unfoldable pub items_value : List PurchaseItem → ℤ
items_value = foldl (λ sum item. sum +ℤ item.line_total) (pos 0)

unfoldable pub items_of : List PurchaseLine → List PurchaseItem
items_of [] = []
items_of (line ∷ lines) = new_item line ∷ items_of lines

unfoldable pub new_purchase : PurchaseForm → Purchase
unfolding items_value items_of
new_purchase form = record {
  supplier_id = form.supplier_id;
  total_value = items_value (items_of form.items);
  transport_charges = or_else form.transport_charges (pos 0);
  purchase_date = form.purchase_date;
  cancelled_at = none;
  items = items_of form.items;
}

-- The movements that bring the items in, and those that take them back.
unfoldable pub brought_in : List PurchaseItem → List Movement
brought_in [] = []
brought_in (item ∷ items) =
    record {
      product_id = item.product_id;
      type = MovementType.purchase;
      quantity_in = item.quantity;
      quantity_out = 0;
    }
    ∷ brought_in items

unfoldable pub taken_back : List PurchaseItem → List Movement
taken_back [] = []
taken_back (item ∷ items) =
    record {
      product_id = item.product_id;
      type = MovementType.adjustment;
      quantity_in = 0;
      quantity_out = item.quantity;
    }
    ∷ taken_back items

unfoldable pub create : PurchaseForm → SerialAnswers → Env → M (Unit {0})
unfolding assert_supplier_and_products_exist new_purchase brought_in
create form serials env = do
  assert_supplier_and_products_exist form.supplier_id form.items
  modify (λ s. record s { purchases = insert env.new_id (new_purchase form) s.purchases })
  record_movements (brought_in (new_purchase form).items)
  lift serials.registered
  log Activity.recorded_purchase env.new_id

abbrev pub find_purchase : ℕ → M Purchase
find_purchase id = do or_throw (← gets (λ s. lookup id s.purchases)) purchase_not_found

unfoldable pub has_returns : ℕ → Store → Bool
has_returns id s = any (λ e. same_id e.1.purchase_id (some id)) s.purchase_returns

unfoldable pub has_refunds : ℕ → Store → Bool
has_refunds id s = any (λ e. same_id e.1.purchase_id (some id)) s.refunds

-- `assertSupplierNotOverpaid`: the supplier may not come to owe, or to owe more.
unfoldable pub assert_supplier_not_overpaid : ℕ → ℤ → M (Unit {0})
unfolding compute_supplier_balance
assert_supplier_not_overpaid supplier_id before = do
  balance ← gets (compute_supplier_balance (some supplier_id))
  guard (not (ltb_ℤ balance (pos 0) && ltb_ℤ balance before)) supplier_overpaid

-- The row that `update` writes.
unfoldable pub edited_purchase : Purchase → PurchaseForm → Purchase
unfolding items_value items_of
edited_purchase p form = record p {
  supplier_id = form.supplier_id;
  total_value = items_value (items_of form.items);
  transport_charges = or_else form.transport_charges (pos 0);
  purchase_date = form.purchase_date;
  items = items_of form.items;
}

-- The `update` of the service.
unfoldable pub edit : ℕ → PurchaseForm → SerialAnswers → M (Unit {0})
unfolding assert_supplier_and_products_exist has_returns edited_purchase brought_in taken_back
    assert_supplier_not_overpaid compute_supplier_balance
edit id form serials = do
  p ← find_purchase id
  guard (not (is_some p.cancelled_at)) purchase_is_cancelled
  returned ← gets (has_returns id)
  guard (not returned) purchase_has_returns
  assert_supplier_and_products_exist form.supplier_id form.items
  before ← gets (compute_supplier_balance (some p.supplier_id))
  lift serials.editable
  record_movements (taken_back p.items)
  modify (λ s. record s { purchases = update id (edited_purchase p form) s.purchases })
  record_movements (brought_in (edited_purchase p form).items)
  lift serials.registered
  lift serials.shelf
  assert_supplier_not_overpaid p.supplier_id before
  log Activity.updated_purchase id

unfoldable pub remove : ℕ → SerialAnswers → M (Unit {0})
unfolding has_returns has_refunds taken_back assert_supplier_not_overpaid compute_supplier_balance
remove id serials = do
  p ← find_purchase id
  returned ← gets (has_returns id)
  guard (not returned) purchase_has_returns
  refunded ← gets (has_refunds id)
  guard (not refunded) purchase_has_refunds
  before ← gets (compute_supplier_balance (some p.supplier_id))
  record_movements (taken_back p.items)
  lift serials.removed
  modify (λ s. record s { purchases = delete id s.purchases })
  lift serials.shelf
  assert_supplier_not_overpaid p.supplier_id before
  log Activity.deleted_purchase id
