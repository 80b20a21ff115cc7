-- ===== src/Commission/Stalled.antt =====
-- Orders that no commission rule is for block the reconciliation job: it takes 200 orders without an
-- entry at a time, and these never get one.
use mathlib.Core.Path.{subst}
use electro_mart_backend.Prelude.{
  not, ◌&&◌, is_some, refl, or_else, none, inl, inr, Option-cases, ◌∙◌, sym, ap, [], ◌∷◌, ◌≡◌, ◌==◌,
  any, All, Bool, List, ℕ, Bool-cases,
}
use electro_mart_backend.Prelude.Int.{ℤ}
use electro_mart_backend.Rows.{SalesReturn, Order, OrderItem}
use electro_mart_backend.Rows.Commission.{CommissionRule, CommissionLine}
use electro_mart_backend.Table.{Table, update_where}
use electro_mart_backend.Table.Predicates.{AllRows}
use electro_mart_backend.Store.{Env, Store}
use electro_mart_backend.Commission.Reconcile.{
  is_fulfilled, is_eligible, take_where, create_ledger_entries, resolve_rule, reversed_line,
  is_reversible, reverse_entries, entries_for, insert_lines, create_entries, reconcile,
}

-- No product of the order has a rule in force when the order was approved.
abbrev pub HasNoRule : Table CommissionRule → Order → Type 0
HasNoRule rules o =
    All (λ item. resolve_rule item.product_id (or_else o.approved_at o.created_at) rules ≡ none)
      o.items

-- Is there a commission line for an order?
unfoldable pub has_entry : ℕ → Store → Bool
has_entry id s = any (λ e. e.1.order_id == id) s.commission_lines

-- The runs of the job, one after the other.
unfoldable pub runs : (ℤ → ℤ → ℤ) → List Env → Store → Store
runs percent_of [] s = s
runs percent_of (env ∷ envs) s = runs percent_of envs (reconcile percent_of env s)

no_entries :
    (percent_of : ℤ → ℤ → ℤ) (representative order_id at now : ℕ) (rules : Table CommissionRule)
    (items : List OrderItem)
    → All (λ item. resolve_rule item.product_id at rules ≡ none) items
    → entries_for percent_of representative order_id at now rules items ≡ []
unfolding entries_for
no_entries percent_of representative order_id at now rules [] unruled = refl
no_entries percent_of representative order_id at now rules (item ∷ items) (none_, unruled) =
    rw (entries_for, none_)
      (no_entries percent_of representative order_id at now rules items unruled)

create_entries_idle :
    (percent_of : ℤ → ℤ → ℤ) (now : ℕ) (batch : Table Order) (next : ℕ) (s : Store)
    → AllRows (λ _ o. HasNoRule s.commission_rules o) batch
    → create_entries percent_of next now batch s ≡ s
unfolding create_entries insert_lines
create_entries_idle percent_of now [] next s idle = refl
create_entries_idle percent_of now ((id, o) ∷ batch) next s (unruled, idle) =
    elim (Option-cases o.created_by_rep_id) [
      | inl nobody ↦ rw nobody (create_entries_idle percent_of now batch next s idle)
      | inr (representative, by) ↦
          rw
            (
              by,
              no_entries percent_of representative id (or_else o.approved_at o.created_at) now
                  s.commission_rules o.items unruled,
            )
            (create_entries_idle percent_of now batch _ s idle)
    ]

any-reversed :
    (id : ℕ) (returns : Table SalesReturn) (lines : Table CommissionLine)
    → any
        (λ e. e.1.order_id == id)
        (update_where (λ _ l. is_reversible returns l) reversed_line lines)
      ≡ any (λ e. e.1.order_id == id) lines
unfolding update_where reversed_line
any-reversed id returns [] = refl
any-reversed id returns ((k, l) ∷ lines) = elim (Bool-cases (is_reversible returns l)) [
  | inl live ↦ rw (live, any-reversed id returns lines) refl
  | inr other ↦ rw (other, any-reversed id returns lines) refl
]

same_batch :
    (a b : Table CommissionLine)
    → ((id : ℕ) → any (λ e. e.1.order_id == id) a ≡ any (λ e. e.1.order_id == id) b)
    → (n : ℕ) (orders : Table Order)
    → take_where n (is_eligible a) orders ≡ take_where n (is_eligible b) orders
unfolding is_eligible
same_batch a b same n orders = λ i.
    take_where n (λ id o. is_some o.created_by_rep_id && is_fulfilled o.status && not (same id i))
      orders

-- What a run does that takes none but such orders: it reverses lines.
one_run :
    (percent_of : ℤ → ℤ → ℤ) (env : Env) (s : Store)
    → AllRows
        (λ _ o. HasNoRule s.commission_rules o)
        (take_where 200 (is_eligible s.commission_lines) s.orders)
    → reconcile percent_of env s ≡ reverse_entries s
unfolding reconcile create_ledger_entries
one_run percent_of env s stuck = ap reverse_entries (
    create_entries_idle percent_of env.now
      (take_where 200 (is_eligible s.commission_lines) s.orders) env.new_id s stuck)

still_stuck :
    (s : Store)
    → AllRows
        (λ _ o. HasNoRule s.commission_rules o)
        (take_where 200 (is_eligible s.commission_lines) s.orders)
    → AllRows
        (λ _ o. HasNoRule s.commission_rules o)
        (take_where 200 (is_eligible (reverse_entries s).commission_lines) s.orders)
unfolding reverse_entries
still_stuck s stuck =
    subst (λ batch. AllRows (λ _ o. HasNoRule s.commission_rules o) batch)
      (sym (
        same_batch _ s.commission_lines (λ id. any-reversed id s.sales_returns s.commission_lines)
          200 s.orders))
      stuck

-- If no rule is for any of the 200 orders that the next run of the job would take (or of all that are
-- left, if they are fewer), then no order gets an entry in however many runs, whenever they come and
-- whatever orders with a rule stand after those: after them the same orders have one as before.
pub runs_stall :
    (percent_of : ℤ → ℤ → ℤ) (envs : List Env) (s : Store)
    → AllRows
        (λ _ o. HasNoRule s.commission_rules o)
        (take_where 200 (is_eligible s.commission_lines) s.orders)
    → (id : ℕ) → has_entry id (runs percent_of envs s) ≡ has_entry id s
unfolding runs has_entry reverse_entries
runs_stall percent_of [] s stuck id = refl
runs_stall percent_of (env ∷ envs) s stuck id =
    ap (λ t. has_entry id (runs percent_of envs t)) (one_run percent_of env s stuck)
    ∙ runs_stall percent_of envs (reverse_entries s) (still_stuck s stuck) id
    ∙ any-reversed id s.sales_returns s.commission_lines
