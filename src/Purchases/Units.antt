-- ===== src/Purchases/Units.antt =====
-- The units of every product that a purchase moves.
use electro_mart_backend.Prelude.{refl, arith, ℕ, ◌≡◌, ◌+◌, ◌==◌, if◌then◌else◌, List, [], ◌∷◌}
use electro_mart_backend.Rows.{Purchase, PurchaseItem}
use electro_mart_backend.Store.{Store}
use electro_mart_backend.Inventory.Shifted.{IsShifted, shift_eq, shift_trans, brings, takes}
use electro_mart_backend.Purchases.Changes.{
  PurchaseLine, PurchaseForm, items_of, brought_in, taken_back, new_purchase, edited_purchase,
}

-- The units of a product on the lines of a form, and among the items of a purchase.
unfoldable pub units_in_form : List PurchaseLine → ℕ → ℕ
units_in_form [] id = 0
units_in_form (line ∷ lines) id =
    (if id == line.product_id then line.quantity else 0) + units_in_form lines id

unfoldable pub units_bought : List PurchaseItem → ℕ → ℕ
units_bought [] id = 0
units_bought (item ∷ items) id =
    (if id == item.product_id then item.quantity else 0) + units_bought items id

brings-brought_in :
    (lines : List PurchaseLine) (id : ℕ)
    → brings (brought_in (items_of lines)) id ≡ units_in_form lines id
unfolding brings brought_in items_of units_in_form
brings-brought_in [] id = refl
brings-brought_in (line ∷ lines) id = rw (brings-brought_in lines id) refl

takes-brought_in : (items : List PurchaseItem) (id : ℕ) → takes (brought_in items) id ≡ 0
unfolding takes brought_in
takes-brought_in [] id = refl
takes-brought_in (item ∷ items) id = ground (arith, takes-brought_in items id)

takes-taken_back :
    (items : List PurchaseItem) (id : ℕ) → takes (taken_back items) id ≡ units_bought items id
unfolding takes taken_back units_bought
takes-taken_back [] id = refl
takes-taken_back (item ∷ items) id = rw (takes-taken_back items id) refl

brings-taken_back : (items : List PurchaseItem) (id : ℕ) → brings (taken_back items) id ≡ 0
unfolding brings taken_back
brings-taken_back [] id = refl
brings-taken_back (item ∷ items) id = ground (arith, brings-taken_back items id)

pub given_back :
    (p : Purchase) (s t : Store)
    → IsShifted (brings (taken_back p.items)) (takes (taken_back p.items)) s t
    → IsShifted (λ _. 0) (units_bought p.items) s t
given_back p s t out =
    shift_eq _ _ (λ _. 0) (units_bought p.items) s t
      (λ id. omega (arith, takes-taken_back p.items id, brings-taken_back p.items id)) out

pub exchanged :
    (p : Purchase) (form : PurchaseForm) (s t u : Store)
    → IsShifted (brings (taken_back p.items)) (takes (taken_back p.items)) s t
    → IsShifted
        (brings (brought_in (edited_purchase p form).items))
        (takes (brought_in (edited_purchase p form).items))
        t
        u
    → IsShifted (units_in_form form.items) (units_bought p.items) s u
unfolding edited_purchase
exchanged p form s t u out back =
    shift_eq _ _ (units_in_form form.items) (units_bought p.items) s u
      (λ id. omega (
        arith,
        takes-taken_back p.items id,
        brings-taken_back p.items id,
        takes-brought_in (items_of form.items) id,
        brings-brought_in form.items id,
      ))
      (shift_trans _ _ _ _ s t u out back)

pub brought_by :
    (form : PurchaseForm) (s t : Store)
    → IsShifted
        (brings (brought_in (new_purchase form).items))
        (takes (brought_in (new_purchase form).items))
        s
        t
    → IsShifted (units_in_form form.items) (λ _. 0) s t
unfolding new_purchase
brought_by form s t shift =
    shift_eq _ _ (units_in_form form.items) (λ _. 0) s t
      (λ id.
        omega (arith, takes-brought_in (items_of form.items) id, brings-brought_in form.items id))
      shift
