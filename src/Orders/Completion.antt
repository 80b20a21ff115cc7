-- ===== src/Orders/Completion.antt =====
-- Completing an order bills its dealer for what the invoice comes to, in the stored balance and in the
-- rows alike.
use electro_mart_backend.Prelude.{
  ℕ, ◌≡◌, refl, true, false, Option, none, some, ◌==◌, ==→eq, Bool-cases, inl, inr, arith,
}
use electro_mart_backend.Prelude.Int.{ℤ, pos, ◌+ℤ◌, int_laws}
use electro_mart_backend.Rows.{OrderStatus, Order, Invoice}
use electro_mart_backend.Table.{lookup, update}
use electro_mart_backend.Store.{Store, Env, M, pure, log, increment_balance}
use electro_mart_backend.Store.After.{
  both-After, After, After-mono, next-After, or_throw-After, guard-After, done,
}
use electro_mart_backend.Ledger.{IsBalanced, is_completed_status}
use electro_mart_backend.Ledger.Offsets.{IsOff, IsBalanced-IsOff, increment-IsOff}
use electro_mart_backend.Orders.Billing.{OneInvoice, billed-kept, billed-none, billed-completed}
use electro_mart_backend.Orders.Approval.{same_order_status}
use electro_mart_backend.Orders.Progress.{
  invoice_for, bill_order, NextStatus, to_packed, to_delivered, to_completed, advance_status,
  advanced_order, complete_directly, fast_forwarded, is_under_way, required_status, bill_completion,
}

-- `Invoice.orderId` is unique, and an invoice is for the dealer of its order.
abbrev pub IsInvoicedOnce : Store → Type 0
IsInvoicedOnce s =
    OneInvoice s.invoices
    × ((id : ℕ) (o : Order) (i : Invoice)
        → lookup id s.orders ≡ some o
        → invoice_for id s.invoices ≡ some i
        → i.dealer_id ≡ o.dealer_id)

increment-tables :
    (d : ℕ) (x : ℤ) (s : Store)
    → After (increment_balance d x s) (λ _ t. (t.orders ≡ s.orders) × (t.invoices ≡ s.invoices))
unfolding increment_balance
increment-tables d x s = or_throw-After _ _ s _ (λ _ _. done (refl, refl))

completed_after_billing :
    (id : ℕ) (o : Order) (i : Invoice) (s t : Store)
    → OneInvoice s.invoices
    → i.dealer_id ≡ o.dealer_id
    → lookup id s.orders ≡ some o
    → is_completed_status o.status ≡ false
    → invoice_for id s.invoices ≡ some i
    → t.orders ≡ s.orders
    → t.invoices ≡ s.invoices
    → IsOff o.dealer_id (pos 0 +ℤ i.grand_total) t
    → (new : Order) → is_completed_status new.status ≡ true
    → IsBalanced (record t { orders = update id new t.orders })
completed_after_billing id o i s t one own found open_ e same_orders same_invoices off new closed d
      row h =
    let bill = billed-completed d id new o s.orders i s.invoices found open_ closed one e in
    elim (Bool-cases (d == o.dealer_id)) [
      | inl same ↦ grind (
        int_laws,
        off d row h,
        rw (← same_orders, ← same_invoices) at bill,
        own,
        same,
        ==→eq d o.dealer_id same,
      )
      | inr differ ↦ grind (int_laws, off d row h, bill, own, differ)
    ]

fast_forwarded-closed :
    (o : Order) (now : ℕ) → is_completed_status (fast_forwarded o now).status ≡ true
unfolding fast_forwarded
fast_forwarded-closed o now = refl

billed-After :
    (found_invoice : Option Invoice) (id : ℕ) (o : Order) (s : Store)
    → IsInvoicedOnce s
    → IsBalanced s
    → lookup id s.orders ≡ some o
    → is_completed_status o.status ≡ false
    → invoice_for id s.invoices ≡ found_invoice
    → After
        ((elim found_invoice as (λ _. M (Unit {0})) [
          | none ↦ pure tt
          | some i ↦ increment_balance o.dealer_id i.grand_total
        ])
          s)
        (λ _ t.
          (new : Order)
          → is_completed_status new.status ≡ true
          → IsBalanced (record t { orders = update id new t.orders }))
billed-After none id o s (one, own) b found open_ e =
    done (λ new closed d row h. rw (billed-none d id new o s.orders s.invoices found e) (b d row h))
billed-After (some i) id o s (one, own) b found open_ e =
    After-mono
      (λ _ t ((same_orders, same_invoices), off) new closed.
        completed_after_billing id o i s t one (own id o i found e) found open_ e same_orders
          same_invoices off new closed)
      (both-After (increment-tables o.dealer_id i.grand_total s)
        (increment-IsOff o.dealer_id (pos 0) i.grand_total s (IsBalanced-IsOff o.dealer_id s b)))

-- An order under way is not complete.
under_way-open :
    (status : OrderStatus) → is_under_way status ≡ true → is_completed_status status ≡ false
unfolding is_under_way
under_way-open status e = ground arith

-- Completing an approved, packed or delivered order at once keeps every dealer's stored balance what
-- the rows say, if every order has at most one invoice, which is for the order's dealer.
pub complete_directly-IsBalanced :
    (id : ℕ) (env : Env) (s : Store)
    → IsInvoicedOnce s
    → IsBalanced s
    → After (complete_directly id env s) (λ _ t. IsBalanced t)
unfolding complete_directly log bill_order
complete_directly-IsBalanced id env s once b = or_throw-After _ _ s _ (λ o found.
    guard-After _ _ s _ (λ _. guard-After _ _ s _ (λ under_way.
      next-After
        (billed-After (invoice_for id s.invoices) id o s once b found
          (under_way-open o.status under_way) refl)
        (λ _ t ready. done (ready (fast_forwarded o env.now) (fast_forwarded-closed o env.now))))))

-- The two writes of `advanceStatus`.
advanced-After :
    (to : NextStatus) (id : ℕ) (o : Order) (now : ℕ) (s : Store)
    → IsInvoicedOnce s
    → IsBalanced s
    → lookup id s.orders ≡ some o
    → same_order_status o.status (required_status to) ≡ true
    → After
        (bill_completion to id o s)
        (λ _ t. IsBalanced (record t { orders = update id (advanced_order to o now) t.orders }))
unfolding bill_completion bill_order required_status advanced_order
advanced-After to_packed id o now s once b found from = done (λ d row h.
    rw
      (billed-kept d id (advanced_order to_packed o now) o s.orders s.invoices found (ground arith))
      (b d row h))
advanced-After to_delivered id o now s once b found from = done (λ d row h.
    rw
      (billed-kept d id (advanced_order to_delivered o now) o s.orders s.invoices found
        (ground arith))
      (b d row h))
advanced-After to_completed id o now s once b found from =
    After-mono (λ _ t ready. ready (advanced_order to_completed o now) refl)
      (billed-After (invoice_for id s.invoices) id o s once b found (ground arith) refl)

-- Moving an order to its next status keeps every dealer's stored balance what the rows say, if every
-- order has at most one invoice, which is for the order's dealer: only the step to completed bills.
pub advance_status-IsBalanced :
    (id : ℕ) (to : NextStatus) (env : Env) (s : Store)
    → IsInvoicedOnce s
    → IsBalanced s
    → After (advance_status id to env s) (λ _ t. IsBalanced t)
unfolding advance_status log
advance_status-IsBalanced id to env s once b = or_throw-After _ _ s _ (λ o found.
    guard-After _ _ s _ (λ from.
      next-After (advanced-After to id o env.now s once b found from) (λ _ t still. done still)))
