-- ===== src/Orders/Stock.antt =====
-- Approving an order reserves stock that is there, and logs it.
use electro_mart_backend.Prelude.{
  arith, ℕ, ◌+◌, ◌==◌, ◌≡◌, some, if◌then◌else◌, List, [], ◌∷◌, refl,
}
use electro_mart_backend.Rows.{Order, OrderItem}
use electro_mart_backend.Table.{lookup}
use electro_mart_backend.Store.{Store, Env, log}
use electro_mart_backend.Store.After.{
  lift-After, After, next-After, or_throw-After, guard-After, done, both-After, After-mono,
}
use electro_mart_backend.Inventory.Reconciled.{IsReconciled, record_movement-IsReconciled}
use electro_mart_backend.Inventory.Shifted.{
  shift_eq, IsShifted, shift_trans, record_movement-IsShifted,
}
use electro_mart_backend.Orders.Discounts.{DiscountForm, Rounding}
use electro_mart_backend.Orders.Approval.{reserve_items, approve, apply_approval}

-- The units of a product that an order asks for.
unfoldable pub units_ordered : List OrderItem → ℕ → ℕ
units_ordered [] id = 0
units_ordered (item ∷ items) id =
    (if id == item.product_id then item.quantity else 0) + units_ordered items id

abbrev nothing_gained : ℕ → ℕ
nothing_gained _ = 0

reserve_items-IsReconciled :
    (opening : ℕ → ℕ) (items : List OrderItem) (s : Store)
    → IsReconciled opening s
    → After (reserve_items items s) (λ _ t. IsReconciled opening t)
unfolding reserve_items
reserve_items-IsReconciled opening [] s sound = done sound
reserve_items-IsReconciled opening (item ∷ items) s sound =
    next-After (record_movement-IsReconciled opening _ s sound)
      (λ _ t still. reserve_items-IsReconciled opening items t still)

reserve_items-IsShifted :
    (items : List OrderItem) (s : Store)
    → After (reserve_items items s) (λ _ t. IsShifted nothing_gained (units_ordered items) s t)
unfolding reserve_items units_ordered
reserve_items-IsShifted [] s = done (λ id stock found. (stock, found, refl))
reserve_items-IsShifted (item ∷ items) s = next-After (record_movement-IsShifted _ s) (λ _ t one.
    After-mono
      (λ _ u two.
        shift_eq _ _ nothing_gained (units_ordered (item ∷ items)) s u (λ id. ground arith)
          (shift_trans _ _ nothing_gained (units_ordered items) s t u one two))
      (reserve_items-IsShifted items t))

-- An approval that commits takes off the stock of every product what the items of the order ask for
-- of it, and keeps the stock reconciled with the inventory log, if it was.
pub approve-IsReserved :
    (opening : ℕ → ℕ) (rounding : Rounding) (id : ℕ) (form : DiscountForm) (env : Env) (s : Store)
    → IsReconciled opening s
    → After (approve rounding id form env s) (λ _ t.
      IsReconciled opening t
      × ((o : Order) × (lookup id s.orders ≡ some o)
          × IsShifted nothing_gained (units_ordered o.items) s t))
unfolding approve apply_approval log
approve-IsReserved opening rounding id form env s sound = or_throw-After _ _ s _ (λ o found.
    guard-After _ _ s _ (λ _. lift-After _ s _ (λ _ _.
      next-After
        (both-After (reserve_items-IsReconciled opening o.items s sound)
          (reserve_items-IsShifted o.items s))
        (λ _ t (still, shifted). done (still, (o, found, shifted))))))
