-- ===== src/Commission/Reconcile.antt =====
-- CommissionReconciliationService (src/commission/commission-reconciliation.service.ts), a job that runs
-- every five minutes.
use electro_mart_backend.Prelude.{
  zero, ltb, length, ◌+◌, any, ◌||◌, leb, or_else, not, suc, ◌&&◌, false, some, is_some, none,
  if◌then◌else◌, ◌==◌, true, [], Bool, ◌∷◌, Option, List, ℕ,
}
use electro_mart_backend.Rows.{OrderItem, SalesReturn, Order, OrderStatus}
use electro_mart_backend.Prelude.Int.{◌*ℕ◌, ℤ}
use electro_mart_backend.Rows.Commission.{
  CommissionType, LineStatus, CommissionRule, CommissionLine,
}
use electro_mart_backend.Table.{insert, update_where, Table}
use electro_mart_backend.Store.{Env, Store}
use electro_mart_backend.Commission.Lines.{same_line_status}

-- Is the rule for the product, and in force at an instant?
unfoldable pub is_in_force : ℕ → ℕ → CommissionRule → Bool
is_in_force product at r =
    r.product_id == product
    && leb r.start_date at
    && elim r.end_date [ none ↦ true | some end ↦ leb at end ]

-- `orderBy: [{ isCampaign: 'desc' }, { startDate: 'desc' }]`: does the first rule stand before the other?
unfoldable pub outranks : CommissionRule → CommissionRule → Bool
outranks r q =
    if r.is_campaign
    then not q.is_campaign || ltb q.start_date r.start_date
    else not q.is_campaign && ltb q.start_date r.start_date

unfoldable pub better_rule : CommissionRule → Option CommissionRule → CommissionRule
unfolding outranks
better_rule r none = r
better_rule r (some q) = if outranks q r then q else r

-- `resolveRule`: the first of the rules in that order.
unfoldable pub resolve_rule : ℕ → ℕ → Table CommissionRule → Option CommissionRule
unfolding is_in_force better_rule
resolve_rule product at [] = none
resolve_rule product at ((_, r) ∷ t) =
    let rest = resolve_rule product at t in
    if is_in_force product at r then some (better_rule r rest) else rest

-- `computeAmount`, `Decimal` division being rounded as `percent_of` does.
unfoldable pub compute_amount : (ℤ → ℤ → ℤ) → CommissionRule → OrderItem → ℤ
compute_amount percent_of rule item = elim rule.type [
  | CommissionType.fixed ↦ rule.value *ℕ item.quantity
  | CommissionType.percentage ↦ percent_of item.net_line_total rule.value
]

unfoldable pub new_line : (ℤ → ℤ → ℤ) → ℕ → ℕ → ℕ → OrderItem → CommissionRule → CommissionLine
unfolding compute_amount
new_line percent_of representative order_id now item rule = record {
  representative_id = representative;
  order_id = order_id;
  product_id = item.product_id;
  amount = compute_amount percent_of rule item;
  status = LineStatus.pending;
  settlement_id = none;
  created_at = now;
}

-- The entries of an order: an item without a rule has none.
unfoldable pub entries_for :
    (ℤ → ℤ → ℤ) → ℕ → ℕ → ℕ → ℕ → Table CommissionRule → List OrderItem → List CommissionLine
unfolding resolve_rule new_line
entries_for percent_of representative order_id at now rules [] = []
entries_for percent_of representative order_id at now rules (item ∷ items) =
    let rest = entries_for percent_of representative order_id at now rules items in
    elim (resolve_rule item.product_id at rules) [
      | none ↦ rest
      | some rule ↦ new_line percent_of representative order_id now item rule ∷ rest
    ]

-- `createMany`, the ids handed out from `next` on.
unfoldable pub insert_lines : ℕ → List CommissionLine → Table CommissionLine → Table CommissionLine
insert_lines next [] t = t
insert_lines next (l ∷ ls) t = insert next l (insert_lines (suc next) ls t)

-- `FULFILLMENT_STATUSES`
unfoldable pub is_fulfilled : OrderStatus → Bool
is_fulfilled OrderStatus.approved = true
is_fulfilled OrderStatus.packed = true
is_fulfilled OrderStatus.delivered = true
is_fulfilled OrderStatus.completed = true
is_fulfilled _ = false

-- The filter of the orders that are newly eligible.
unfoldable pub is_eligible : Table CommissionLine → ℕ → Order → Bool
unfolding is_fulfilled
is_eligible lines order_id o =
    is_some o.created_by_rep_id
    && is_fulfilled o.status
    && not (any (λ e. e.1.order_id == order_id) lines)

-- `findMany({ where, take })`
unfoldable pub take_where : ℕ → (ℕ → Order → Bool) → Table Order → Table Order
take_where n p [] = []
take_where zero p ((k, o) ∷ t) = []
take_where (suc n) p ((k, o) ∷ t) =
    if p k o then (k, o) ∷ take_where n p t else take_where (suc n) p t

-- The orders of a batch, in order.
unfoldable pub create_entries : (ℤ → ℤ → ℤ) → ℕ → ℕ → Table Order → Store → Store
unfolding entries_for insert_lines
create_entries percent_of next now [] s = s
create_entries percent_of next now ((id, o) ∷ batch) s = elim o.created_by_rep_id [
  | none ↦ create_entries percent_of next now batch s
  | some representative ↦
      let entries =
        entries_for percent_of representative id (or_else o.approved_at o.created_at) now
          s.commission_rules o.items in
      create_entries percent_of (next + length entries) now batch
        (record s { commission_lines = insert_lines next entries s.commission_lines })
]

-- `createLedgerEntriesForNewlyEligibleOrders`
unfoldable pub create_ledger_entries : (ℤ → ℤ → ℤ) → ℕ → ℕ → Store → Store
unfolding is_eligible take_where create_entries
create_ledger_entries percent_of next now s =
    create_entries percent_of next now (take_where 200 (is_eligible s.commission_lines) s.orders) s

-- A line not yet paid, of an order that something came back from.
unfoldable pub is_reversible : Table SalesReturn → CommissionLine → Bool
is_reversible returns l =
    (same_line_status l.status LineStatus.pending || same_line_status l.status LineStatus.approved)
    && any (λ e. e.1.order_id == l.order_id) returns

unfoldable pub reversed_line : CommissionLine → CommissionLine
reversed_line l = record l { status = LineStatus.reversed }

-- `reverseEntriesForReturnedOrders`
unfoldable pub reverse_entries : Store → Store
unfolding is_reversible reversed_line
reverse_entries s = record s {
  commission_lines =
      update_where (λ _ l. is_reversible s.sales_returns l) reversed_line s.commission_lines;
}

unfoldable pub reconcile : (ℤ → ℤ → ℤ) → Env → Store → Store
unfolding create_ledger_entries reverse_entries
reconcile percent_of env s = reverse_entries (create_ledger_entries percent_of env.new_id env.now s)
