-- ===== src/SalesReturns/Steps.antt =====
-- What is kept while a return is under way, and the steps that keep it.
use electro_mart_backend.Prelude.{[], ◌∷◌, some, List, none, Option, ℕ}
use electro_mart_backend.Store.{◌>>=◌, pure, M, increment_balance, Store}
use electro_mart_backend.Wallet.{assert_wallet_not_overdrawn}
use electro_mart_backend.Prelude.Int.{◌+ℤ◌, ℤ}
use electro_mart_backend.Inventory.Reconciled.{record_movement-IsReconciled, IsReconciled}
use electro_mart_backend.Store.After.{
  next-After, guard-After, done, guard-Reads, both-After, or_throw-After, Reads-mono, After-mono,
  Reads, After,
}
use electro_mart_backend.Inventory.{record_movement, Movement}
use electro_mart_backend.Ledger.Offsets.{recompute-IsOff, increment-IsOff, IsOff}
use electro_mart_backend.SalesReturns.Changes.{invoice_id_for, recompute_order_invoice, move_items}
use electro_mart_backend.Invoicing.{recompute_invoice_payment_status}
use electro_mart_backend.SalesReturns.Allowance.{IsWithinOrder}
use electro_mart_backend.Rows.{ReturnItem}
use electro_mart_backend.SalesReturns.Balance.{IsByOwner}

-- A return's dealer is its order's, and no more comes back than was ordered.
abbrev pub IsHonest : Store → Type 0
IsHonest s = IsByOwner s.orders s.sales_returns × IsWithinOrder s.orders s.sales_returns

-- With the stock reconciled, and the balance of `d0` off by `x`.
abbrev pub IsSoundBut : (ℕ → ℕ) → ℕ → ℤ → Store → Type 0
IsSoundBut opening d0 x s = IsOff d0 x s × (IsHonest s × IsReconciled opening s)

module _ (opening : ℕ → ℕ) (d0 : ℕ) (x : ℤ) where
  movement-accounts :
      (m : Movement) (s : Store)
      → IsOff d0 x s
      → IsHonest s
      → After (record_movement m s) (λ _ t. IsOff d0 x t × IsHonest t)
  unfolding record_movement
  movement-accounts m s off honest =
      or_throw-After _ _ s _ (λ _ _. guard-After _ _ s _ (λ _. done (off, honest)))

  movement-IsSoundBut :
      (m : Movement) (s : Store)
      → IsSoundBut opening d0 x s
      → After (record_movement m s) (λ _ t. IsSoundBut opening d0 x t)
  movement-IsSoundBut m s (off, (honest, reconciled)) =
      After-mono (λ _ t p. (p.0.0, (p.0.1, p.1)))
        (both-After (movement-accounts m s off honest)
          (record_movement-IsReconciled opening m s reconciled))

  pub move_items-IsSoundBut :
      (movement : ReturnItem → Movement) (items : List ReturnItem) (s : Store)
      → IsSoundBut opening d0 x s
      → After (move_items movement items s) (λ _ t. IsSoundBut opening d0 x t)
  unfolding move_items
  move_items-IsSoundBut movement [] s sound = done sound
  move_items-IsSoundBut movement (item ∷ items) s sound =
      next-After (movement-IsSoundBut (movement item) s sound)
        (λ _ t still. move_items-IsSoundBut movement items t still)

  increment-others :
      (delta : ℤ) (s : Store)
      → IsHonest s
      → IsReconciled opening s
      → After (increment_balance d0 delta s) (λ _ t. IsHonest t × IsReconciled opening t)
  unfolding increment_balance
  increment-others delta s honest reconciled =
      or_throw-After _ _ s _ (λ _ _. done (honest, reconciled))

  pub increment-IsSoundBut :
      (delta : ℤ) (s : Store)
      → IsSoundBut opening d0 x s
      → After (increment_balance d0 delta s) (λ _ t. IsSoundBut opening d0 (x +ℤ delta) t)
  increment-IsSoundBut delta s (off, (honest, reconciled)) =
      both-After (increment-IsOff d0 x delta s off) (increment-others delta s honest reconciled)

  recompute-others :
      (id : ℕ) (s : Store)
      → IsHonest s
      → IsReconciled opening s
      → After (recompute_invoice_payment_status id s) (λ _ t. IsHonest t × IsReconciled opening t)
  unfolding recompute_invoice_payment_status
  recompute-others id s honest reconciled =
      or_throw-After _ _ s _ (λ _ _. done (honest, reconciled))

  recompute_of-IsSoundBut :
      (invoice : Option ℕ) (s : Store)
      → IsSoundBut opening d0 x s
      → After
          ((elim invoice as (λ _. M (Unit {0})) [
            | none ↦ pure tt
            | some id ↦ recompute_invoice_payment_status id >>= λ _. pure tt
          ])
            s)
          (λ _ t. IsSoundBut opening d0 x t)
  recompute_of-IsSoundBut none s sound = done sound
  recompute_of-IsSoundBut (some id) s (off, (honest, reconciled)) =
      next-After
        (both-After (recompute-IsOff d0 x id s off) (recompute-others id s honest reconciled))
        (λ _ t still. done still)

  pub recompute_order_invoice-IsSoundBut :
      (order_id : ℕ) (s : Store)
      → IsSoundBut opening d0 x s
      → After (recompute_order_invoice order_id s) (λ _ t. IsSoundBut opening d0 x t)
  unfolding recompute_order_invoice
  recompute_order_invoice-IsSoundBut order_id s sound =
      recompute_of-IsSoundBut (invoice_id_for order_id s.invoices) s sound

pub overdrawn-Reads :
    (d : ℕ) (s : Store) → Reads (assert_wallet_not_overdrawn d s) s (λ _. Unit {0})
unfolding assert_wallet_not_overdrawn
overdrawn-Reads d s = Reads-mono (λ _ _. tt) (guard-Reads _ _ s)
