-- ===== src/Inventory/Adjusted.antt =====
-- What a correction of the stock by hand changes.
use electro_mart_backend.Prelude.{true, ℕ, ◌≡◌, ◌+◌, ◌-◌, ◌==◌, some, if◌then◌else◌, arith, leb}
use electro_mart_backend.Table.{lookup, lookup-update}
use electro_mart_backend.Store.{Store, log}
use electro_mart_backend.Store.After.{
  both-After, next-After, After, or_throw-After, guard-After, lift-After, done,
}
use electro_mart_backend.Inventory.{record_movement, can_move, moved}
use electro_mart_backend.Inventory.Reconciled.{IsReconciled, record_movement-IsReconciled}
use electro_mart_backend.Inventory.Adjustment.{
  AdjustStock, Direction, stock_in, stock_out, units_in, units_out, SerialOutcome, adjust_stock,
  adjustment,
}

-- A stock before and after a correction by a quantity: more by an `IN`, less by an `OUT`.
unfoldable pub IsChanged : Direction → ℕ → ℕ → ℕ → Type 0
IsChanged stock_in quantity before after = after ≡ before + quantity
IsChanged stock_out quantity before after = after + quantity ≡ before

-- The product was in stock and its stock is changed to `balance`; every other stock is as it was.
unfoldable pub IsAdjusted : AdjustStock → ℕ → Store → Store → Type 0
unfolding IsChanged
IsAdjusted dto balance s t =
    ((before : ℕ) × (lookup dto.product_id s.stock ≡ some before)
      × IsChanged dto.direction dto.quantity before balance)
    × ((id : ℕ)
        → lookup id t.stock ≡ (if id == dto.product_id then some balance else lookup id s.stock))

changed :
    (d : Direction) (quantity before : ℕ)
    → leb (units_out d quantity) (before + units_in d quantity) ≡ true
    → IsChanged d quantity before (before + units_in d quantity - units_out d quantity)
unfolding IsChanged
changed stock_in quantity before enough = omega arith
changed stock_out quantity before enough = ground arith

record_movement-IsAdjusted :
    (opening : ℕ → ℕ) (dto : AdjustStock) (s : Store)
    → IsReconciled opening s
    → After
        (record_movement (adjustment dto) s)
        (λ balance t. IsReconciled opening t × IsAdjusted dto balance s t)
unfolding record_movement IsAdjusted can_move moved
record_movement-IsAdjusted opening dto s sound =
    both-After (record_movement-IsReconciled opening (adjustment dto) s sound) (
      or_throw-After _ _ s _ (λ old found. guard-After _ _ s _ (λ enough. done (
        (old, found, changed dto.direction dto.quantity old enough),
        λ id. lookup-update id dto.product_id _ old s.stock found,
      ))))

-- A correction of the stock by hand that commits adds its quantity to the stock of the named product
-- for an `IN` and takes it off for an `OUT`, reports the new stock, leaves every other stock as it
-- was, and keeps every product's stock reconciled with the inventory log, if it was, whatever the
-- serial services reply.
pub adjust_stock-IsAdjusted :
    (opening : ℕ → ℕ) (dto : AdjustStock) (serials : SerialOutcome) (s : Store)
    → IsReconciled opening s
    → After
        (adjust_stock dto serials s)
        (λ balance t. IsReconciled opening t × IsAdjusted dto balance s t)
unfolding adjust_stock log IsAdjusted
adjust_stock-IsAdjusted opening dto serials s sound = lift-After _ s _ (λ count _.
    guard-After _ _ s _ (λ _.
      next-After (record_movement-IsAdjusted opening dto s sound)
        (λ balance t now. lift-After _ t _ (λ _ _. lift-After _ t _ (λ _ _. done now)))))
