-- ===== src/Inventory/Shifted.antt =====
-- How far movements shift the stock of every product.
use electro_mart_backend.Prelude.{
  refl, true, ℕ, ◌≡◌, ◌+◌, ◌==◌, some, if◌then◌else◌, arith, ==→eq, Bool-cases, inl, inr, List, [],
  ◌∷◌,
}
use electro_mart_backend.Table.{lookup, lookup-update}
use electro_mart_backend.Store.{Store}
use electro_mart_backend.Store.After.{
  After-mono, next-After, After, or_throw-After, guard-After, done,
}
use electro_mart_backend.Inventory.{
  update, Movement, record_movement, record_movements, can_move, moved,
}

-- The stock of every product is higher by what `gained` says and lower by what `lost` says.
abbrev pub IsShifted : (ℕ → ℕ) → (ℕ → ℕ) → Store → Store → Type 0
IsShifted gained lost s t =
    (id stock : ℕ)
    → lookup id s.stock ≡ some stock
    → (now : ℕ) × (lookup id t.stock ≡ some now) × (now + lost id ≡ stock + gained id)

-- What movements bring in of a product, and what they take out.
unfoldable pub brings : List Movement → ℕ → ℕ
brings [] id = 0
brings (m ∷ ms) id = (if id == m.product_id then m.quantity_in else 0) + brings ms id

unfoldable pub takes : List Movement → ℕ → ℕ
takes [] id = 0
takes (m ∷ ms) id = (if id == m.product_id then m.quantity_out else 0) + takes ms id

pub shift_trans :
    (g l h k : ℕ → ℕ) (s t u : Store)
    → IsShifted g l s t
    → IsShifted h k t u
    → IsShifted (λ id. g id + h id) (λ id. l id + k id) s u
shift_trans g l h k s t u first second id stock found =
    let (mid, here, one) = first id stock found in
    let (now, there, two) = second id mid here in (now, there, omega arith)

-- The same shift, by sums that are written another way.
pub shift_eq :
    (g l h k : ℕ → ℕ) (s t : Store)
    → ((id : ℕ) → h id + l id ≡ g id + k id)
    → IsShifted g l s t
    → IsShifted h k s t
shift_eq g l h k s t same shift id stock found =
    let (now, there, one) = shift id stock found in let e = same id in (now, there, omega arith)

moved_by :
    (m : Movement) (s : Store) (old : ℕ)
    → lookup m.product_id s.stock ≡ some old
    → can_move m old ≡ true
    → (id stock : ℕ) → lookup id s.stock ≡ some stock
    → (now : ℕ) × (lookup id (update m.product_id (moved m old) s.stock) ≡ some now)
      × (now + (if id == m.product_id then m.quantity_out else 0)
          ≡ stock + (if id == m.product_id then m.quantity_in else 0))
unfolding can_move moved
moved_by m s old found enough id stock e =
    let row = lookup-update id m.product_id (moved m old) old s.stock found in
    elim (Bool-cases (id == m.product_id)) [
      | inl same ↦ (moved m old, (ground arith), grind (arith, ==→eq id m.product_id same))
      | inr differ ↦ (stock, (ground arith), ground arith)
    ]

pub record_movement-IsShifted :
    (m : Movement) (s : Store)
    → After (record_movement m s) (λ _ t.
      IsShifted
        (λ id. if id == m.product_id then m.quantity_in else 0)
        (λ id. if id == m.product_id then m.quantity_out else 0)
        s
        t)
unfolding record_movement
record_movement-IsShifted m s =
    or_throw-After _ _ s _
      (λ old found. guard-After _ _ s _ (λ enough. done (moved_by m s old found enough)))

pub record_movements-IsShifted :
    (ms : List Movement) (s : Store)
    → After (record_movements ms s) (λ _ t. IsShifted (brings ms) (takes ms) s t)
unfolding record_movements brings takes
record_movements-IsShifted [] s = done (λ id stock found. (stock, found, refl))
record_movements-IsShifted (m ∷ ms) s = next-After (record_movement-IsShifted m s) (λ _ t one.
    After-mono (λ _ u two. shift_trans _ _ (brings ms) (takes ms) s t u one two)
      (record_movements-IsShifted ms t))
