-- ===== src/Orders/Statuses.antt =====
-- The timestamps of an order go with its status.
use electro_mart_backend.Prelude.{
  List, [], ◌∷◌, ◌∙◌, ◌∷◌, List, ℕ, ◌≡◌, refl, Bool, true, false, ◌&&◌, Option, none, some, is_some,
  arith,
}
use electro_mart_backend.Prelude.Int.{ℤ}
use electro_mart_backend.Rows.{
  OrderItem, Invoice, Order, pending_approval, approved, rejected, packed, delivered, completed,
}
use electro_mart_backend.Table.{lookup, update}
use electro_mart_backend.Table.Predicates.{AllRows, AllRows-lookup, AllRows-update}
use electro_mart_backend.Store.{pure, M, Store, Env, log, increment_balance}
use electro_mart_backend.Store.After.{
  lift-After, After, After-mono, next-After, or_throw-After, guard-After, done,
}
use electro_mart_backend.Orders.Approval.{
  reserve_items, same_order_status, approve, apply_approval, approved_order,
}
use electro_mart_backend.Orders.Discounts.{DiscountForm, Rounding}
use electro_mart_backend.Orders.Progress.{
  invoice_for, NextStatus, to_packed, to_delivered, to_completed, reject, rejected_order,
  advance_status, advanced_order, complete_directly, fast_forwarded, is_under_way, required_status,
  bill_order, bill_completion,
}
use electro_mart_backend.Inventory.{Movement, record_movement}

-- Has the order the timestamps of its status and of every status that it went through?
unfoldable pub has_stamps : Order → Bool
has_stamps o = elim o.status [
  | pending_approval ↦ true
  | rejected ↦ is_some o.rejected_at
  | approved ↦ is_some o.approved_at
  | packed ↦ is_some o.approved_at && is_some o.packed_at
  | delivered ↦ is_some o.approved_at && is_some o.packed_at && is_some o.delivered_at
  | completed ↦
      is_some o.approved_at
      && is_some o.packed_at
      && is_some o.delivered_at
      && is_some o.completed_at
]

-- Every order's timestamps go with its status.
abbrev pub IsStamped : Store → Type 0
IsStamped s = AllRows (λ _ o. has_stamps o ≡ true) s.orders

advanced-has_stamps :
    (to : NextStatus) (o : Order) (now : ℕ)
    → has_stamps o ≡ true
    → same_order_status o.status (required_status to) ≡ true
    → has_stamps (advanced_order to o now) ≡ true
unfolding has_stamps advanced_order required_status
advanced-has_stamps to o now stamped from = ground arith

fast_forwarded-has_stamps :
    (o : Order) (now : ℕ)
    → has_stamps o ≡ true
    → is_under_way o.status ≡ true
    → has_stamps (fast_forwarded o now) ≡ true
unfolding has_stamps fast_forwarded is_under_way
fast_forwarded-has_stamps o now stamped under_way = ground arith

increment-orders :
    (d : ℕ) (x : ℤ) (s : Store) → After (increment_balance d x s) (λ _ t. t.orders ≡ s.orders)
unfolding increment_balance
increment-orders d x s = or_throw-After _ _ s _ (λ _ _. done refl)

unbilled_or_billed-orders :
    (i : Option Invoice) (d : ℕ) (s : Store)
    → After
        ((elim i as (λ _. M (Unit {0})) [
          | none ↦ pure tt
          | some i ↦ increment_balance d i.grand_total
        ])
          s)
        (λ _ t. t.orders ≡ s.orders)
unbilled_or_billed-orders none d s = done refl
unbilled_or_billed-orders (some i) d s = increment-orders d i.grand_total s

bill-orders :
    (id : ℕ) (o : Order) (s : Store) → After (bill_order id o s) (λ _ t. t.orders ≡ s.orders)
unfolding bill_order
bill-orders id o s = unbilled_or_billed-orders (invoice_for id s.invoices) o.dealer_id s

bill_completion-orders :
    (to : NextStatus) (id : ℕ) (o : Order) (s : Store)
    → After (bill_completion to id o s) (λ _ t. t.orders ≡ s.orders)
unfolding bill_completion
bill_completion-orders to_completed id o s = bill-orders id o s
bill_completion-orders to_packed id o s = done refl
bill_completion-orders to_delivered id o s = done refl

-- Writing a stamped row over an order of a state with the same orders.
write-IsStamped :
    (id : ℕ) (o : Order) (s t : Store)
    → IsStamped s
    → t.orders ≡ s.orders
    → has_stamps o ≡ true
    → AllRows (λ _ o. has_stamps o ≡ true) (update id o t.orders)
write-IsStamped id o s t stamped same h =
    rw same (AllRows-update (λ _ o. has_stamps o ≡ true) id o s.orders stamped h)

own_stamps :
    (id : ℕ) (o : Order) (s : Store)
    → IsStamped s
    → lookup id s.orders ≡ some o
    → has_stamps o ≡ true
own_stamps id o s stamped found =
    AllRows-lookup (λ _ o. has_stamps o ≡ true) id o s.orders stamped found

pub advance_status-IsStamped :
    (id : ℕ) (to : NextStatus) (env : Env) (s : Store)
    → IsStamped s
    → After (advance_status id to env s) (λ _ t. IsStamped t)
unfolding advance_status log
advance_status-IsStamped id to env s stamped = or_throw-After _ _ s _ (λ o found.
    guard-After _ _ s _ (λ from. next-After (bill_completion-orders to id o s) (λ _ t same. done (
      write-IsStamped id (advanced_order to o env.now) s t stamped same
        (advanced-has_stamps to o env.now (own_stamps id o s stamped found) from)))))

pub complete_directly-IsStamped :
    (id : ℕ) (env : Env) (s : Store)
    → IsStamped s
    → After (complete_directly id env s) (λ _ t. IsStamped t)
unfolding complete_directly log
complete_directly-IsStamped id env s stamped = or_throw-After _ _ s _ (λ o found.
    guard-After _ _ s _ (λ _. guard-After _ _ s _ (λ under_way.
      next-After (bill-orders id o s) (λ _ t same. done (
        write-IsStamped id (fast_forwarded o env.now) s t stamped same
          (fast_forwarded-has_stamps o env.now (own_stamps id o s stamped found) under_way))))))

rejected-has_stamps : (o : Order) (now : ℕ) → has_stamps (rejected_order o now) ≡ true
unfolding has_stamps rejected_order
rejected-has_stamps o now = refl

pub reject-IsStamped :
    (id : ℕ) (env : Env) (s : Store) → IsStamped s → After (reject id env s) (λ _ t. IsStamped t)
unfolding reject log
reject-IsStamped id env s stamped = or_throw-After _ _ s _ (λ o found.
    guard-After _ _ s _
      (λ _. done (write-IsStamped id _ s s stamped refl (rejected-has_stamps o env.now))))

approved-has_stamps :
    (rounding : Rounding) (o : Order) (discount : ℤ) (skip : Bool) (completion : Option ℕ) (now : ℕ)
    → has_stamps (approved_order rounding o discount skip completion now) ≡ true
unfolding has_stamps approved_order
approved-has_stamps rounding o discount skip none now = refl
approved-has_stamps rounding o discount skip (some at) now = refl

movement-orders :
    (m : Movement) (s : Store) → After (record_movement m s) (λ _ t. t.orders ≡ s.orders)
unfolding record_movement
movement-orders m s = or_throw-After _ _ s _ (λ _ _. guard-After _ _ s _ (λ _. done refl))

reserve-orders :
    (items : List OrderItem) (s : Store)
    → After (reserve_items items s) (λ _ t. t.orders ≡ s.orders)
unfolding reserve_items
reserve-orders [] s = done refl
reserve-orders (item ∷ items) s =
    next-After (movement-orders _ s)
      (λ _ t same. After-mono (λ _ u still. still ∙ same) (reserve-orders items t))

pub approve-IsStamped :
    (rounding : Rounding) (id : ℕ) (form : DiscountForm) (env : Env) (s : Store)
    → IsStamped s
    → After (approve rounding id form env s) (λ _ t. IsStamped t)
unfolding approve apply_approval log
approve-IsStamped rounding id form env s stamped = or_throw-After _ _ s _ (λ o found.
    guard-After _ _ s _ (λ _. lift-After _ s _ (λ discount _.
      next-After (reserve-orders o.items s) (λ _ t same. done (
        write-IsStamped id _ s t stamped same
          (approved-has_stamps rounding o discount false none env.now))))))

-- The routes of orders.controller.ts that move an order's status.
pub data OrderRequest : Type 0 where
  approve_order : DiscountForm → OrderRequest
  reject_order complete_order : OrderRequest
  advance_order : NextStatus → OrderRequest

unfoldable pub handle_order : Rounding → ℕ → OrderRequest → Env → M (Unit {0})
handle_order rounding id (approve_order form) env = approve rounding id form env
handle_order rounding id reject_order env = reject id env
handle_order rounding id complete_order env = complete_directly id env
handle_order rounding id (advance_order to) env = advance_status id to env

-- A request that moves an order's status and commits leaves every order with the timestamps of its
-- status and of every status that it went through, if they had them before.
pub handle_order-IsStamped :
    (rounding : Rounding) (id : ℕ) (q : OrderRequest) (env : Env) (s : Store)
    → IsStamped s
    → After (handle_order rounding id q env s) (λ _ t. IsStamped t)
unfolding handle_order
handle_order-IsStamped rounding id (approve_order form) env s stamped =
    approve-IsStamped rounding id form env s stamped
handle_order-IsStamped rounding id reject_order env s stamped = reject-IsStamped id env s stamped
handle_order-IsStamped rounding id complete_order env s stamped =
    complete_directly-IsStamped id env s stamped
handle_order-IsStamped rounding id (advance_order to) env s stamped =
    advance_status-IsStamped id to env s stamped
