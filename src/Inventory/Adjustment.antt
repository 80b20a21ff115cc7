-- ===== src/Inventory/Adjustment.antt =====
-- `adjustStock` of src/inventory/inventory.service.ts, a correction of the stock by hand. The serial
-- numbers live in tables of their own, so what the services for them reply is an argument; who made
-- the correction and why is left out.
use electro_mart_backend.Prelude.{ℕ, leb}
use electro_mart_backend.Result.{Result, too_many_serials}
use electro_mart_backend.Rows.{MovementType}
use electro_mart_backend.Store.{M, Activity, log, lift, guard, pure, ◌>>=◌, ◌>>◌}
use electro_mart_backend.Inventory.{Movement, record_movement}

-- `'IN' | 'OUT'`
pub data Direction : Type 0 where
  stock_in stock_out : Direction

pub record AdjustStock : Type 0 where
  pub product_id : ℕ
  pub direction : Direction
  pub quantity : ℕ

-- `direction === 'IN' ? quantity : 0`, and the same for `'OUT'`.
abbrev pub units_in : Direction → ℕ → ℕ
units_in stock_in quantity = quantity
units_in stock_out quantity = 0

abbrev pub units_out : Direction → ℕ → ℕ
units_out stock_in quantity = 0
units_out stock_out quantity = quantity

-- What the calls answer: `normalizeSerialList` (how many serial numbers are left), `writeOffUnits`,
-- `registerUnits` and the `assert` of `beginShelfGuard`.
pub record SerialOutcome : Type 0 where
  pub normalized : Result ℕ
  pub written_off : Result (Unit {0})
  pub registered : Result (Unit {0})
  pub shelf : Result (Unit {0})

abbrev pub adjustment : AdjustStock → Movement
adjustment dto = record {
  product_id = dto.product_id;
  type = MovementType.adjustment;
  quantity_in = units_in dto.direction dto.quantity;
  quantity_out = units_out dto.direction dto.quantity;
}

-- `if (dto.direction === 'OUT') await writeOffUnits(...) else await registerUnits(...)`
abbrev pub units_changed : Direction → SerialOutcome → Result (Unit {0})
units_changed stock_out serials = serials.written_off
units_changed stock_in serials = serials.registered

unfoldable pub adjust_stock : AdjustStock → SerialOutcome → M ℕ
adjust_stock dto serials = do
  count ← lift serials.normalized
  guard (leb count dto.quantity) too_many_serials
  stock ← record_movement (adjustment dto)
  lift (units_changed dto.direction serials)
  lift serials.shelf
  log Activity.adjusted_inventory dto.product_id
  pure stock
