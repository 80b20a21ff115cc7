-- ===== src/Inventory.antt =====
-- InventoryService.recordMovement (src/inventory/inventory.service.ts): the only way that stock moves.
pub mod Reconciled
pub mod Shifted
pub mod Adjustment
pub mod Adjusted
use electro_mart_backend.Prelude.{
  [], ℕ, Bool, ◌+◌, ◌-◌, leb, Option, none, some, List, ◌∷◌, if◌then◌else◌,
}
use electro_mart_backend.Result.{product_not_found, insufficient_stock}
use electro_mart_backend.Rows.{InventoryLog, MovementType}
use electro_mart_backend.Table.{lookup, update}
use electro_mart_backend.Store.{Store, M, pure, gets, guard, modify, or_throw, ◌>>=◌, ◌>>◌}

-- The arguments of a movement; a quantity that the caller leaves out is zero.
pub record Movement : Type 0 where
  pub product_id : ℕ
  pub type : MovementType
  pub quantity_in : ℕ
  pub quantity_out : ℕ

-- `"currentStock" + netDelta`, for a movement that passes the test of the WHERE clause.
unfoldable pub moved : Movement → ℕ → ℕ
moved m stock = stock + m.quantity_in - m.quantity_out

-- `"currentStock" + netDelta >= 0`
unfoldable pub can_move : Movement → ℕ → Bool
can_move m stock = leb m.quantity_out (stock + m.quantity_in)

unfoldable pub logged : Movement → ℕ → InventoryLog
logged m balance = record {
  product_id = m.product_id;
  type = m.type;
  quantity_in = m.quantity_in;
  quantity_out = m.quantity_out;
  balance_after = balance;
}

-- The conditional UPDATE writes no row for a missing product and for too little stock; the service
-- tells the two apart by a read.
unfoldable pub record_movement : Movement → M ℕ
unfolding can_move moved logged
record_movement m = do
  stock ← or_throw (← gets (λ s. lookup m.product_id s.stock)) product_not_found
  guard (can_move m stock) insufficient_stock
  modify (λ s. record s {
    stock = update m.product_id (moved m stock) s.stock;
    inventory_logs = logged m (moved m stock) ∷ s.inventory_logs;
  })
  pure (moved m stock)

-- `for (const item of items) await recordMovement(tx, ...)`
unfoldable pub record_movements : List Movement → M (Unit {0})
record_movements [] = pure tt
record_movements (m ∷ ms) = do _ ← record_movement m; record_movements ms
