-- ===== src/Inventory/Reconciled.antt =====
-- The stock of every product is what its log says.
use electro_mart_backend.Prelude.{
  true, ℕ, ◌≡◌, ◌+◌, ◌==◌, List, [], ◌∷◌, some, if◌then◌else◌, arith, ==→eq, Bool-cases, inl, inr,
}
use electro_mart_backend.Rows.{InventoryLog}
use electro_mart_backend.Table.{Table, lookup, lookup-update}
use electro_mart_backend.Store.{Store}
use electro_mart_backend.Store.After.{next-After, After, or_throw-After, guard-After, done}
use electro_mart_backend.Inventory.{
  record_movements, update, Movement, record_movement, can_move, moved, logged,
}

-- What came in of a product, and what went out.
unfoldable pub came_in : ℕ → List InventoryLog → ℕ
came_in id [] = 0
came_in id (l ∷ ls) = if l.product_id == id then l.quantity_in + came_in id ls else came_in id ls

unfoldable pub went_out : ℕ → List InventoryLog → ℕ
went_out id [] = 0
went_out id (l ∷ ls) =
    if l.product_id == id then l.quantity_out + went_out id ls else went_out id ls

-- The balance of the newest entry for a product, or `start` if there is none.
unfoldable pub last_balance : ℕ → ℕ → List InventoryLog → ℕ
last_balance start id [] = start
last_balance start id (l ∷ ls) =
    if l.product_id == id then l.balance_after else last_balance start id ls

-- Every product's stock, from `opening` before its first movement: the sum of its movements, and the
-- balance of its newest entry.
abbrev pub IsReconciled : (ℕ → ℕ) → Store → Type 0
IsReconciled opening s =
    (id stock : ℕ)
    → lookup id s.stock ≡ some stock
    → (stock + went_out id s.inventory_logs ≡ opening id + came_in id s.inventory_logs)
      × (last_balance (opening id) id s.inventory_logs ≡ stock)

after_movement :
    (opening : ℕ → ℕ) (m : Movement) (s : Store) (stock : ℕ)
    → IsReconciled opening s
    → lookup m.product_id s.stock ≡ some stock
    → can_move m stock ≡ true
    → (id now : ℕ) → lookup id (update m.product_id (moved m stock) s.stock) ≡ some now
    → (now + went_out id (logged m (moved m stock) ∷ s.inventory_logs)
        ≡ opening id + came_in id (logged m (moved m stock) ∷ s.inventory_logs))
      × (last_balance (opening id) id (logged m (moved m stock) ∷ s.inventory_logs) ≡ now)
unfolding can_move moved logged came_in went_out last_balance
after_movement opening m s stock sound found enough id now e =
    let row = lookup-update id m.product_id (moved m stock) stock s.stock found in
    elim (Bool-cases (m.product_id == id)) [
      | inl same ↦
          rw same (grind (arith, ==→eq m.product_id id same, row, sound m.product_id stock found))
      | inr differ ↦
          let kept : lookup id s.stock ≡ some now = ground arith in rw differ (sound id now kept)
    ]

-- A movement that is recorded keeps the stock of every product reconciled with the inventory log, if
-- it was: the stock is what came in less what went out, and the balance of the newest log entry.
pub record_movement-IsReconciled :
    (opening : ℕ → ℕ) (m : Movement) (s : Store)
    → IsReconciled opening s
    → After (record_movement m s) (λ _ t. IsReconciled opening t)
unfolding record_movement
record_movement-IsReconciled opening m s sound = or_throw-After _ _ s _ (λ stock found.
    guard-After _ _ s _ (λ enough. done (after_movement opening m s stock sound found enough)))

pub record_movements-IsReconciled :
    (opening : ℕ → ℕ) (ms : List Movement) (s : Store)
    → IsReconciled opening s
    → After (record_movements ms s) (λ _ t. IsReconciled opening t)
unfolding record_movements
record_movements-IsReconciled opening [] s sound = done sound
record_movements-IsReconciled opening (m ∷ ms) s sound =
    next-After (record_movement-IsReconciled opening m s sound)
      (λ _ t still. record_movements-IsReconciled opening ms t still)

-- What does not speak of the stock or of its log is kept by movements.
pub record_movements_keep :
    (P : Store → Type 0)
    → ((s : Store) (stock : Table ℕ) (logs : List InventoryLog)
        → P s
        → P (record s { stock = stock; inventory_logs = logs }))
    → (ms : List Movement) (s : Store) → P s
    → After (record_movements ms s) (λ _ t. P t)
unfolding record_movements record_movement
record_movements_keep P closed [] s p = done p
record_movements_keep P closed (m ∷ ms) s p =
    next-After {P = λ _ t. P t}
      (or_throw-After _ _ s _ (λ _ _. guard-After _ _ s _ (λ _. done (closed s _ _ p))))
      (λ _ t still. record_movements_keep P closed ms t still)
