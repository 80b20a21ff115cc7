-- ===== src/Commission/Lines.antt =====
-- The ledger lines as SettlementsService picks them, and its checks on them.
use electro_mart_backend.Prelude.{
  length, keep, foldl, ltb, leb, is_some, not, false, ◌&&◌, same_id, true, ◌==◌, none, Bool, some,
  List, ℕ,
}
use electro_mart_backend.Rows.Commission.{
  LineStatus, CommissionLine, SettlementStatus, RepSettlement,
}
use electro_mart_backend.Prelude.Int.{eqb_ℤ, pos, ◌+ℤ◌, ℤ}
use electro_mart_backend.Store.{modify, M, Store}
use electro_mart_backend.Table.{rows_where, update_where}

abbrev pub same_line_status : LineStatus → LineStatus → Bool
same_line_status LineStatus.pending LineStatus.pending = true
same_line_status LineStatus.approved LineStatus.approved = true
same_line_status LineStatus.settled LineStatus.settled = true
same_line_status LineStatus.reversed LineStatus.reversed = true
same_line_status _ _ = false

abbrev pub same_settlement_status : SettlementStatus → SettlementStatus → Bool
same_settlement_status SettlementStatus.pending SettlementStatus.pending = true
same_settlement_status SettlementStatus.approved SettlementStatus.approved = true
same_settlement_status SettlementStatus.rejected SettlementStatus.rejected = true
same_settlement_status SettlementStatus.paid SettlementStatus.paid = true
same_settlement_status SettlementStatus.reversed SettlementStatus.reversed = true
same_settlement_status _ _ = false

-- The filter of `create`, for the lines from `period_start` to before `period_limit`.
unfoldable pub is_claimable : ℕ → ℕ → ℕ → CommissionLine → Bool
is_claimable representative period_start period_limit l =
    l.representative_id == representative
    && same_line_status l.status LineStatus.pending
    && not (is_some l.settlement_id)
    && leb period_start l.created_at
    && ltb l.created_at period_limit

-- A line of a settlement, in a status.
unfoldable pub is_line_of : ℕ → CommissionLine → Bool
is_line_of id l = same_id l.settlement_id (some id)

unfoldable pub is_line_in : ℕ → LineStatus → CommissionLine → Bool
unfolding is_line_of
is_line_in id status l = is_line_of id l && same_line_status l.status status

abbrev pub amount_of : List CommissionLine → ℤ
amount_of = foldl (λ sum l. sum +ℤ l.amount) (pos 0)

unfoldable pub claimed : ℕ → CommissionLine → CommissionLine
claimed id l = record l { status = LineStatus.approved; settlement_id = some id }

-- A line that goes back to be settled again.
unfoldable pub released : CommissionLine → CommissionLine
released l = record l { status = LineStatus.pending; settlement_id = none }

unfoldable pub detached : CommissionLine → CommissionLine
detached l = record l { settlement_id = none }

unfoldable pub settled_line : CommissionLine → CommissionLine
settled_line l = record l { status = LineStatus.settled }

abbrev pub change_lines : (CommissionLine → Bool) → (CommissionLine → CommissionLine) → M (Unit {0})
change_lines p f =
    modify (λ s. record s { commission_lines = update_where (λ _ l. p l) f s.commission_lines })

-- `assertLinesUnchanged`: no line of the settlement was reversed, and they add up to its total.
unfoldable pub lines_unchanged : ℕ → RepSettlement → Store → Bool
unfolding is_line_of
lines_unchanged id current s =
    let lines = rows_where (λ _ l. is_line_of id l) s.commission_lines in
    let payable = keep (λ l. same_line_status l.status LineStatus.approved) lines in
    length payable == length lines && eqb_ℤ (amount_of payable) current.total_commission
