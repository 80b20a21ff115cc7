-- ===== src/Commission/Payouts.antt =====
-- The money that leaves for settlements: an expense for every payout, a cash adjustment for every
-- reversal of one.
use electro_mart_backend.Prelude.{
  refl, is_some, not, ◌&&◌, false, arith, true, ◌||◌, some, ◌≡◌, if◌then◌else◌, ℕ,
}
use electro_mart_backend.Commission.Settlements.{reversed_settlement, paid_settlement}
use electro_mart_backend.Rows.Commission.{
  CashAdjustmentType, SettlementStatus, CashAdjustment, Expense, RepSettlement,
}
use electro_mart_backend.Prelude.Int.{pos, int_laws, ◌+ℤ◌, ◌-ℤ◌, ℤ}
use electro_mart_backend.Table.{insert, update, lookup, Table}
use electro_mart_backend.Store.{Store}
use electro_mart_backend.Table.Sums.{total-insert, total, sum_where, total-update}
use electro_mart_backend.Commission.Lines.{same_settlement_status}

-- What a settlement has cost: its total, while it is paid.
unfoldable pub cost : RepSettlement → ℤ
cost t = if same_settlement_status t.status SettlementStatus.paid then t.total_commission else pos 0

unfoldable pub commission_paid : Table RepSettlement → ℤ
unfolding cost
commission_paid = total (λ _ t. cost t)

unfoldable pub expense_total : Table Expense → ℤ
expense_total = total (λ _ e. e.amount)

-- The cash that reversals brought back.
unfoldable pub reversal_total : Table CashAdjustment → ℤ
reversal_total =
    sum_where (λ a. elim a.type [ CashAdjustmentType.settlement_reversal ↦ true | _ ↦ false ])
      (λ a. a.amount)

-- The expenses, less what reversals brought back, are the settlements that are paid, and `other`.
abbrev pub IsPaidOut : ℤ → Store → Type 0
IsPaidOut other s =
    expense_total s.expenses -ℤ reversal_total s.cash_adjustments
    ≡ other +ℤ commission_paid s.rep_settlements

commission_paid-update :
    (id : ℕ) (new old : RepSettlement) (t : Table RepSettlement)
    → lookup id t ≡ some old
    → commission_paid (update id new t) ≡ commission_paid t -ℤ cost old +ℤ cost new
unfolding commission_paid
commission_paid-update id new old t found = total-update _ id new old t found

-- A settlement that costs what it did.
-- A settlement that is pending or approved has cost nothing yet.
pub open-cost :
    (t : RepSettlement)
    → same_settlement_status t.status SettlementStatus.pending
        || same_settlement_status t.status SettlementStatus.approved
      ≡ true
    → cost t ≡ pos 0
unfolding cost
open-cost t h = ground arith

pub put-IsPaidOut :
    (other : ℤ) (id : ℕ) (new old : RepSettlement) (s : Store)
    → lookup id s.rep_settlements ≡ some old
    → cost new ≡ cost old
    → IsPaidOut other s
    → IsPaidOut other (record s { rep_settlements = update id new s.rep_settlements })
put-IsPaidOut other id new old s found same paid_out =
    let sum = commission_paid-update id new old s.rep_settlements found in
    grind (int_laws, same, paid_out)

commission_paid-insert :
    (id : ℕ) (new : RepSettlement) (t : Table RepSettlement)
    → commission_paid (insert id new t) ≡ commission_paid t +ℤ cost new
unfolding commission_paid
commission_paid-insert id new t = total-insert _ id new t

paid_settlement-cost :
    (t : RepSettlement) (expense now : ℕ)
    → cost (paid_settlement t expense now) ≡ t.total_commission
unfolding cost paid_settlement
paid_settlement-cost t expense now = refl

pub inserted-IsPaidOut :
    (other : ℤ) (id : ℕ) (new : RepSettlement) (s : Store)
    → new.status ≡ SettlementStatus.pending
    → IsPaidOut other s
    → IsPaidOut other (record s { rep_settlements = insert id new s.rep_settlements })
inserted-IsPaidOut other id new s pending_ paid_out =
    let sum = commission_paid-insert id new s.rep_settlements in
    let free = open-cost new (rw pending_ refl) in grind (int_laws, paid_out)

-- A payout: an expense of the total, for a settlement that had cost nothing.
pub bought-IsPaidOut :
    (other : ℤ) (id expense : ℕ) (t : RepSettlement) (now : ℕ) (s : Store)
    → lookup id s.rep_settlements ≡ some t
    → (same_settlement_status t.status SettlementStatus.approved && not (is_some t.expense_id))
      ≡ true
    → IsPaidOut other s
    → IsPaidOut other (record s {
      expenses =
          insert expense (record { amount = t.total_commission; expense_date = now }) s.expenses;
      rep_settlements = update id (paid_settlement t expense now) s.rep_settlements;
    })
unfolding expense_total insert total
bought-IsPaidOut other id expense t now s found open_ paid_out =
    let free = open-cost t (ground arith) in
    let full = paid_settlement-cost t expense now in
    let sum = commission_paid-update id (paid_settlement t expense now) t s.rep_settlements found in
    grind (int_laws, paid_out)

-- A reversal: an adjustment of the total, for a settlement that had cost it.
pub returned-IsPaidOut :
    (other : ℤ) (id k : ℕ) (t : RepSettlement) (now : ℕ) (s : Store)
    → lookup id s.rep_settlements ≡ some t
    → (same_settlement_status t.status SettlementStatus.paid && is_some t.expense_id) ≡ true
    → IsPaidOut other s
    → IsPaidOut other (record s {
      cash_adjustments =
          insert k
            (record {
              type = CashAdjustmentType.settlement_reversal;
              amount = t.total_commission;
              adjustment_date = now;
              settlement_id = some id;
            })
            s.cash_adjustments;
      rep_settlements = update id (reversed_settlement t now) s.rep_settlements;
    })
unfolding reversal_total insert total reversed_settlement cost
returned-IsPaidOut other id k t now s found closed paid_out =
    let full : cost t ≡ t.total_commission = ground arith in
    let sum = commission_paid-update id (reversed_settlement t now) t s.rep_settlements found in
    grind (int_laws, paid_out)
