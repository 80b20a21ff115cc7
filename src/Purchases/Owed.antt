-- ===== src/Purchases/Owed.antt =====
-- What purchases do to the stock and to what suppliers are owed.
use electro_mart_backend.Prelude.{
  refl, inr, inl, ◌∙◌, foldl, ◌∷◌, Bool-cases, or_else, List, some, [], ◌==◌, if◌then◌else◌, ◌≡◌, ℕ,
}
use electro_mart_backend.Suppliers.Balance.{
  supplier_components, supplier_balance, compute_supplier_balance,
}
use electro_mart_backend.Table.{update, delete, lookup, insert, Table}
use electro_mart_backend.Rows.{Purchase}
use electro_mart_backend.Store.{Store}
use electro_mart_backend.Prelude.Int.{◌*ℕ◌, int_laws, pos, ◌-ℤ◌, ◌+ℤ◌, ℤ}
use electro_mart_backend.Table.Sums.{total-update, total-delete, total}
use electro_mart_backend.Settlements.Settled.{owed}
use electro_mart_backend.Table.Sums.{total-insert}
use electro_mart_backend.Purchases.Changes.{
  new_purchase, items_value, PurchaseForm, items_of, PurchaseLine, edited_purchase,
}

-- What a purchase adds to what the supplier `id` is owed, for its goods and for their transport.
unfoldable goods_at : ℕ → Purchase → ℤ
goods_at id p = if p.supplier_id == id then p.total_value else pos 0

unfoldable transport_at : ℕ → Purchase → ℤ
transport_at id p = if p.supplier_id == id then p.transport_charges else pos 0

unfoldable pub value_at : ℕ → Purchase → ℤ
unfolding goods_at transport_at
value_at id p = goods_at id p -ℤ transport_at id p

unfoldable goods_total : ℕ → Table Purchase → ℤ
unfolding goods_at
goods_total id = total (λ _ p. goods_at id p)

unfoldable transport_total : ℕ → Table Purchase → ℤ
unfolding transport_at
transport_total id = total (λ _ p. transport_at id p)

-- What the supplier is owed, whatever the purchases.
unfoldable owed_else : ℕ → Store → ℤ
unfolding compute_supplier_balance supplier_balance supplier_components
owed_else id s = owed id (record s { purchases = [] })

owed-parts :
    (id : ℕ) (s : Store)
    → owed id s ≡ owed_else id s +ℤ goods_total id s.purchases -ℤ transport_total id s.purchases
unfolding owed_else goods_total transport_total goods_at transport_at compute_supplier_balance
    supplier_balance supplier_components total
owed-parts id s = omega int_laws

-- The effect of a write on the balance, from its effect on the two sums.
shifted :
    (before after rest g g' t t' dg dt : ℤ)
    → before ≡ rest +ℤ g -ℤ t
    → after ≡ rest +ℤ g' -ℤ t'
    → g' ≡ g +ℤ dg
    → t' ≡ t +ℤ dt
    → after ≡ before +ℤ (dg -ℤ dt)
shifted before after rest g g' t t' dg dt b a eg et = rw (a, b, eg, et) (omega int_laws)

replaced :
    (before after rest g g' t t' dg dt og ot : ℤ)
    → before ≡ rest +ℤ g -ℤ t
    → after ≡ rest +ℤ g' -ℤ t'
    → g' ≡ g -ℤ og +ℤ dg
    → t' ≡ t -ℤ ot +ℤ dt
    → after ≡ before -ℤ (og -ℤ ot) +ℤ (dg -ℤ dt)
replaced before after rest g g' t t' dg dt og ot b a eg et = rw (a, b, eg, et) (omega int_laws)

dropped :
    (before after rest g g' t t' og ot : ℤ)
    → before ≡ rest +ℤ g -ℤ t
    → after ≡ rest +ℤ g' -ℤ t'
    → g' ≡ g -ℤ og
    → t' ≡ t -ℤ ot
    → after ≡ before -ℤ (og -ℤ ot)
dropped before after rest g g' t t' og ot b a eg et = rw (a, b, eg, et) (omega int_laws)

pub owed-insert :
    (id k : ℕ) (p : Purchase) (s : Store)
    → owed id (record s { purchases = insert k p s.purchases }) ≡ owed id s +ℤ value_at id p
unfolding value_at owed_else goods_total transport_total
owed-insert id k p s =
    shifted _ _ (owed_else id s) _ _ _ _ _ _ (owed-parts id s)
      (owed-parts id (record s { purchases = insert k p s.purchases }))
      (total-insert (λ _ q. goods_at id q) k p s.purchases)
      (total-insert (λ _ q. transport_at id q) k p s.purchases)

pub owed-update :
    (id k : ℕ) (p old : Purchase) (s : Store)
    → lookup k s.purchases ≡ some old
    → owed id (record s { purchases = update k p s.purchases })
      ≡ owed id s -ℤ value_at id old +ℤ value_at id p
unfolding value_at owed_else goods_total transport_total
owed-update id k p old s found =
    replaced _ _ (owed_else id s) _ _ _ _ _ _ _ _ (owed-parts id s)
      (owed-parts id (record s { purchases = update k p s.purchases }))
      (total-update (λ _ q. goods_at id q) k p old s.purchases found)
      (total-update (λ _ q. transport_at id q) k p old s.purchases found)

pub owed-delete :
    (id k : ℕ) (old : Purchase) (s : Store)
    → lookup k s.purchases ≡ some old
    → owed id (record s { purchases = delete k s.purchases }) ≡ owed id s -ℤ value_at id old
unfolding value_at owed_else goods_total transport_total
owed-delete id k old s found =
    dropped _ _ (owed_else id s) _ _ _ _ _ _ (owed-parts id s)
      (owed-parts id (record s { purchases = delete k s.purchases }))
      (total-delete (λ _ q. goods_at id q) k old s.purchases found)
      (total-delete (λ _ q. transport_at id q) k old s.purchases found)

-- What the lines of a form cost together.
unfoldable pub lines_cost : List PurchaseLine → ℤ
lines_cost [] = pos 0
lines_cost (line ∷ lines) = line.unit_cost *ℕ line.quantity +ℤ lines_cost lines

-- What a form adds to what the supplier `id` is owed: its lines, less the transport that is charged.
unfoldable pub worth : ℕ → PurchaseForm → ℤ
unfolding lines_cost
worth id form =
    if form.supplier_id == id
    then lines_cost form.items -ℤ or_else form.transport_charges (pos 0)
    else pos 0

items_value-lines_cost :
    (lines : List PurchaseLine) (sum : ℤ)
    → foldl (λ acc item. acc +ℤ item.line_total) sum (items_of lines) ≡ sum +ℤ lines_cost lines
unfolding items_of lines_cost
items_value-lines_cost [] sum = omega int_laws
items_value-lines_cost (line ∷ lines) sum =
    items_value-lines_cost lines (sum +ℤ line.unit_cost *ℕ line.quantity) ∙ omega int_laws

edited_value :
    (p : Purchase) (form : PurchaseForm)
    → (edited_purchase p form).total_value ≡ lines_cost form.items
unfolding edited_purchase items_value
edited_value p form = items_value-lines_cost form.items (pos 0) ∙ omega int_laws

pub value_at-worth :
    (id : ℕ) (p : Purchase) (form : PurchaseForm)
    → value_at id (edited_purchase p form) ≡ worth id form
unfolding value_at goods_at transport_at worth edited_purchase
value_at-worth id p form = elim (Bool-cases (form.supplier_id == id)) [
  | inl same ↦ rw (same, edited_value p form) refl
  | inr differ ↦ rw differ (omega int_laws)
]

new_value : (form : PurchaseForm) → (new_purchase form).total_value ≡ lines_cost form.items
unfolding new_purchase items_value
new_value form = items_value-lines_cost form.items (pos 0) ∙ omega int_laws

pub new_purchase-worth :
    (id : ℕ) (form : PurchaseForm) → value_at id (new_purchase form) ≡ worth id form
unfolding value_at goods_at transport_at worth new_purchase
new_purchase-worth id form = elim (Bool-cases (form.supplier_id == id)) [
  | inl same ↦ rw (same, new_value form) refl
  | inr differ ↦ rw differ (omega int_laws)
]
