-- ===== src/Examples/Commission.antt =====
-- Commissions and their settlements, on a small database.
use electro_mart_backend.Prelude.{
  arith, zero, suc, ℕ, refl, inl, ◌/◌, true, false, ◌*◌, [], some, none, ◌≡◌, ◌∷◌,
}
use electro_mart_backend.Commission.Settlements.{
  rejected_settlement, reject_batch, reject, pay, pay_batch, PayForm, handle_batch,
}
use electro_mart_backend.Commission.Payouts.{
  IsPaidOut, cost, commission_paid, reversal_total, expense_total,
}
use electro_mart_backend.Commission.PaidOut.{handle_batch-IsPaidOut}
use electro_mart_backend.Commission.Progress.{Advances}
use electro_mart_backend.Commission.Advances.{
  nothing_done, rejected_stays, request, Reaches-Advances, Reaches,
}
use electro_mart_backend.Table.{insert, update, update_where, lookup, Table}
use electro_mart_backend.Commission.Reconcile.{
  new_line, insert_lines, reversed_line, reverse_entries, better_rule, create_entries, is_in_force,
  is_reversible, entries_for, is_fulfilled, resolve_rule, reconcile, is_eligible,
  create_ledger_entries, take_where,
}
use electro_mart_backend.Commission.Allotment.{IsAllotted}
use electro_mart_backend.Store.After.{After}
use electro_mart_backend.Rows.Commission.{
  CommissionType, LineStatus, CommissionRule, CommissionLine, SettlementStatus, RepSettlement,
}
use electro_mart_backend.Prelude.Int.{◌+ℤ◌, ◌-ℤ◌, pos_part, pos, ℤ}
use electro_mart_backend.Store.{log, lift, guard, Activity, or_throw, Store}
use electro_mart_backend.Commission.Rules.{resolve_rule-IsBest, IsBest}
use electro_mart_backend.Table.Sums.{total}
use electro_mart_backend.Examples.Data.{one_item, order_in, ordered, nothing, env}
use electro_mart_backend.Cheques.{PaymentMode}
use electro_mart_backend.Commission.Lines.{is_line_of, is_line_in, detached, released}
use electro_mart_backend.Table.Predicates.{AllRows}
use electro_mart_backend.Commission.Reconciled.{reconcile-IsAllotted, IsDue}
use electro_mart_backend.Commission.Reversed.{IsCaused, reconcile-IsCaused}
use electro_mart_backend.Commission.Stalled.{HasNoRule, runs, has_entry, runs_stall}
use electro_mart_backend.Result.{err, ok, Error}
use electro_mart_backend.Rows.{Order, OrderStatus}
use electro_mart_backend.Commission.Allotted.{handle_batch-IsAllotted}
use electro_mart_backend.Commission.Once.{pay-refused}

-- Representative 80 has earned 500 on order 1, which settlement 90 is to pay.
abbrev earned : CommissionLine
earned = record {
  representative_id = 80;
  order_id = 1;
  product_id = 30;
  amount = pos 500;
  status = LineStatus.approved;
  settlement_id = some 90;
  created_at = 90000000;
}

abbrev batch : SettlementStatus → RepSettlement
batch status = record {
  representative_id = 80;
  period_start = 0;
  period_end = 90000000;
  total_commission = pos 500;
  status = status;
  mode = none;
  reference = none;
  cheque_status = none;
  cheque_number = none;
  bank_name = none;
  cheque_date = none;
  expense_id = none;
  approved_at = some 95000000;
  paid_at = none;
  reversed_at = none;
}

abbrev batched : SettlementStatus → Store
batched status = record (ordered OrderStatus.completed) {
  representatives = (80, tt) ∷ [];
  commission_lines = (70, earned) ∷ [];
  rep_settlements = (90, batch status) ∷ [];
}

abbrev in_cash : PayForm
in_cash = record {
  mode = PaymentMode.cash;
  reference = none;
  cheque_number = none;
  bank_name = none;
  cheque_date = none;
}

new_batch : lookup env.new_id (batched SettlementStatus.approved).rep_settlements ≡ none
unfolding lookup
new_batch = refl

nothing_paid : IsPaidOut (pos 0) (batched SettlementStatus.approved)
unfolding expense_total reversal_total commission_paid cost total ◌-ℤ◌ ◌+ℤ◌
nothing_paid = refl

handle_batch-IsPaidOut_example :
    After
      (handle_batch (pay_batch 90 in_cash) env (batched SettlementStatus.approved))
      (λ _ t. IsPaidOut (pos 0) t)
handle_batch-IsPaidOut_example =
    handle_batch-IsPaidOut (pos 0) (pay_batch 90 in_cash) env (batched SettlementStatus.approved)
      nothing_paid

batched-IsAllotted : IsAllotted (batched SettlementStatus.approved)
unfolding lookup
batched-IsAllotted = (refl, tt)

handle_batch-IsAllotted_example :
    After
      (handle_batch (pay_batch 90 in_cash) env (batched SettlementStatus.approved))
      (λ _ t. IsAllotted t)
handle_batch-IsAllotted_example =
    handle_batch-IsAllotted (pay_batch 90 in_cash) env (batched SettlementStatus.approved) new_batch
      batched-IsAllotted

-- The state once the settlement is rejected.
abbrev turned_down : Store
turned_down = record (batched SettlementStatus.approved) {
  rep_settlements = (90, batch SettlementStatus.rejected) ∷ [];
  commission_lines = (70, record earned { status = LineStatus.pending; settlement_id = none }) ∷ [];
  activities = (Activity.rejected_settlement, 90) ∷ [];
}

rejects :
    handle_batch (reject_batch 90) env (batched SettlementStatus.approved) ≡ ok (tt, turned_down)
unfolding handle_batch reject or_throw guard lift rejected_settlement released detached update_where
    is_line_in is_line_of update lookup log
rejects = refl

reached : Reaches (batched SettlementStatus.approved) turned_down
reached =
    request (batched SettlementStatus.approved) turned_down turned_down (reject_batch 90) env
      new_batch rejects (nothing_done turned_down)

Reaches-Advances_example : Advances (batched SettlementStatus.approved) turned_down
Reaches-Advances_example = Reaches-Advances (batched SettlementStatus.approved) turned_down reached

the_batch : lookup 90 turned_down.rep_settlements ≡ some (batch SettlementStatus.rejected)
unfolding lookup
the_batch = refl

rejected_stays_example :
    (y : RepSettlement) × (lookup 90 turned_down.rep_settlements ≡ some y)
    × (y.status ≡ SettlementStatus.rejected)
rejected_stays_example =
    rejected_stays turned_down turned_down 90 (batch SettlementStatus.rejected)
      (nothing_done turned_down) the_batch (inl refl)

pay-refused_example :
    After
      (pay 90 in_cash env (batched SettlementStatus.approved))
      (λ _ t. (e : Error) × (pay 90 in_cash env t ≡ err e))
pay-refused_example = pay-refused 90 in_cash in_cash env env (batched SettlementStatus.approved)

-- A tenth of what product 30 brings, and a campaign that pays 300 for a unit.
abbrev rules : Table CommissionRule
rules =
    (
      1,
      record {
        product_id = 30;
        type = CommissionType.percentage;
        value = pos 10;
        start_date = 0;
        end_date = none;
        is_campaign = false;
      },
    )
    ∷ (
      2,
      record {
        product_id = 30;
        type = CommissionType.fixed;
        value = pos 300;
        start_date = 80000000;
        end_date = some 95000000;
        is_campaign = true;
      },
    )
    ∷ []

resolve_rule-IsBest_example : IsBest 30 90000000 rules (resolve_rule 30 90000000 rules)
resolve_rule-IsBest_example = resolve_rule-IsBest 30 90000000 rules

abbrev percent : ℤ → ℤ → ℤ
percent amount rate = pos (pos_part amount * pos_part rate / 100)

-- Something came back of order 1, of which a commission is still to be paid.
abbrev brought_back : Store
brought_back = record (ordered OrderStatus.completed) {
  representatives = (80, tt) ∷ [];
  commission_lines = (70, record earned { status = LineStatus.pending; settlement_id = none }) ∷ [];
  sales_returns =
      (
        60,
        record {
          order_id = 1;
          dealer_id = 7;
          total_amount = pos 2500;
          return_date = 95000000;
          created_at = 95000000;
          items = [];
        },
      )
      ∷ [];
}

brought_back-IsAllotted : IsAllotted brought_back
unfolding lookup
brought_back-IsAllotted = (refl, tt)

reconcile-IsAllotted_example :
    IsAllotted (reconcile percent env brought_back)
    × AllRows
        (λ _ l. IsDue (reconcile percent env brought_back).sales_returns l)
        (reconcile percent env brought_back).commission_lines
reconcile-IsAllotted_example = reconcile-IsAllotted percent env brought_back brought_back-IsAllotted

brought_back-IsCaused :
    AllRows (λ _ l. IsCaused brought_back.sales_returns l) brought_back.commission_lines
unfolding IsCaused
brought_back-IsCaused = (inl (ground arith), tt)

reconcile-IsCaused_example :
    AllRows
      (λ _ l. IsCaused (reconcile percent env brought_back).sales_returns l)
      (reconcile percent env brought_back).commission_lines
reconcile-IsCaused_example = reconcile-IsCaused percent env brought_back brought_back-IsCaused

-- The run reverses the line.
reverses :
    (reconcile percent env brought_back).commission_lines
    ≡ (70, record earned { status = LineStatus.reversed; settlement_id = none }) ∷ []
unfolding reconcile create_ledger_entries create_entries take_where is_eligible reverse_entries
    update_where is_reversible reversed_line
reverses = refl

-- Orders of representative 80: of product 30, and one of product 31.
abbrev placed : Order
placed = record (order_in OrderStatus.approved) { created_by_rep_id = some 80 }

abbrev sold : Order
sold = record placed { items = record one_item { product_id = 31 } ∷ [] }

-- `n` orders that no rule is for stand before one that has a rule.
abbrev queue : ℕ → Table Order
queue zero = (1000, sold) ∷ []
queue (suc n) = (n, placed) ∷ queue n

abbrev blocked : ℕ → Store
blocked n = record nothing {
  orders = queue n;
  commission_rules =
      (
        1,
        record {
          product_id = 31;
          type = CommissionType.fixed;
          value = pos 300;
          start_date = 0;
          end_date = none;
          is_campaign = false;
        },
      )
      ∷ [];
}

-- The rows that are taken, as many as there are before the last.
stuck :
    (n : ℕ)
    → AllRows
        (λ _ o. HasNoRule (blocked 0).commission_rules o)
        (take_where n (is_eligible []) (queue n))
unfolding take_where is_eligible is_fulfilled resolve_rule is_in_force
stuck zero = tt
stuck (suc n) = ((refl, tt), stuck n)

runs_stall_example :
    has_entry 1000 (runs percent (env ∷ env ∷ []) (blocked 200)) ≡ has_entry 1000 (blocked 200)
runs_stall_example = runs_stall percent (env ∷ env ∷ []) (blocked 200) (stuck 200) 1000

-- With no order before it, the order gets its entry at once.
served : has_entry 1000 (runs percent (env ∷ []) (blocked 0)) ≡ true
unfolding runs has_entry reconcile create_ledger_entries create_entries take_where is_eligible
    is_fulfilled entries_for resolve_rule is_in_force better_rule insert_lines insert new_line
    reverse_entries update_where is_reversible reversed_line
served = refl
