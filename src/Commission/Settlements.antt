-- ===== src/Commission/Settlements.antt =====
-- The operations of SettlementsService (src/commission/settlements.service.ts) that write. A settlement's
-- number and the texts for people are left out, as are the mails.
use electro_mart_backend.Prelude.{
  ◌==◌, length, leb, is_some, ◌||◌, not, ◌&&◌, none, false, some, if◌then◌else◌, String, Bool,
  Option, ℕ,
}
use electro_mart_backend.Store.{
  Activity, log, lift, guard, gets, ◌>>=◌, ◌>>◌, pure, or_throw, modify, M, Env,
}
use electro_mart_backend.Payments.Form.{when_cheque, is_blank}
use electro_mart_backend.Cheques.{
  ChequeKind, assert_cheque_transition, pending, cleared, same_status, is_cheque, ChequeStatus,
  PaymentMode,
}
use electro_mart_backend.Commission.Lines.{
  amount_of, change_lines, same_settlement_status, claimed, is_claimable, detached, is_line_of,
  settled_line, released, is_line_in, lines_unchanged,
}
use electro_mart_backend.Clock.{start_of_next_business_day, start_of_business_day}
use electro_mart_backend.Rows.Commission.{
  LineStatus, CashAdjustmentType, SettlementStatus, RepSettlement,
}
use electro_mart_backend.Prelude.Int.{ℤ}
use electro_mart_backend.Result.{
  lines_taken, no_pending_lines, settlement_already_paid, period_reversed, not_a_cheque,
  cheque_fields_required, settlement_cheque_pending, settlement_not_found, wrong_settlement_status,
  record_not_found, representative_not_found, lines_reversed, require, Result,
}
use electro_mart_backend.Table.{rows_where, insert, lookup, update}

abbrev pub find_settlement : ℕ → M RepSettlement
find_settlement id = do or_throw (← gets (λ s. lookup id s.rep_settlements)) settlement_not_found

abbrev pub put_settlement : ℕ → RepSettlement → M (Unit {0})
put_settlement id t = modify (λ s. record s { rep_settlements = update id t s.rep_settlements })

unfoldable pub new_settlement : ℕ → ℕ → ℕ → ℤ → RepSettlement
new_settlement representative period_start period_end total = record {
  representative_id = representative;
  period_start = period_start;
  period_end = period_end;
  total_commission = total;
  status = SettlementStatus.pending;
  mode = none;
  reference = none;
  cheque_status = none;
  cheque_number = none;
  bank_name = none;
  cheque_date = none;
  expense_id = none;
  approved_at = none;
  paid_at = none;
  reversed_at = none;
}

unfoldable pub create : ℕ → ℕ → ℕ → Env → M (Unit {0})
unfolding start_of_business_day start_of_next_business_day is_claimable new_settlement claimed
create representative dto_start dto_end env = do
  or_throw (← gets (λ s. lookup representative s.representatives)) representative_not_found
  let period_start = start_of_business_day dto_start
  let period_end = start_of_business_day dto_end
  guard (leb period_start period_end) period_reversed
  let is_mine = is_claimable representative period_start (start_of_next_business_day dto_end)
  lines ← gets (λ s. rows_where (λ _ l. is_mine l) s.commission_lines)
  guard (not (length lines == 0)) no_pending_lines
  modify (λ s. record s {
    rep_settlements =
        insert env.new_id (new_settlement representative period_start period_end (amount_of lines))
          s.rep_settlements;
  })
  count ← gets (λ s. length (rows_where (λ _ l. is_mine l) s.commission_lines))
  change_lines is_mine (claimed env.new_id)
  guard (count == length lines) lines_taken
  log Activity.created_settlement env.new_id

unfoldable pub approved_settlement : RepSettlement → ℕ → RepSettlement
approved_settlement t now = record t { status = SettlementStatus.approved; approved_at = some now }

unfoldable pub approve : ℕ → Env → M (Unit {0})
unfolding approved_settlement
approve id env = do
  t ← find_settlement id
  guard (same_settlement_status t.status SettlementStatus.pending) wrong_settlement_status
  put_settlement id (approved_settlement t env.now)
  log Activity.approved_settlement id

-- `current.chequeStatus === ChequeStatus.PENDING`
abbrev pub has_pending_cheque : RepSettlement → Bool
has_pending_cheque t = elim t.cheque_status [ none ↦ false | some c ↦ same_status c pending ]

unfoldable pub rejected_settlement : RepSettlement → RepSettlement
rejected_settlement t = record t { status = SettlementStatus.rejected }

unfoldable pub reject : ℕ → M (Unit {0})
unfolding rejected_settlement is_line_in is_line_of released detached
reject id = do
  t ← find_settlement id
  guard
      (same_settlement_status t.status SettlementStatus.pending
        || same_settlement_status t.status SettlementStatus.approved)
      wrong_settlement_status
  guard (not (has_pending_cheque t)) settlement_cheque_pending
  put_settlement id (rejected_settlement t)
  change_lines (is_line_in id LineStatus.approved) released
  change_lines (is_line_of id) detached
  log Activity.rejected_settlement id

unfoldable pub paid_settlement : RepSettlement → ℕ → ℕ → RepSettlement
paid_settlement t expense now = record t {
  expense_id = some expense;
  status = SettlementStatus.paid;
  paid_at = some now;
}

-- `createSettlementExpense`: the settlement is paid only out of APPROVED, and only once.
unfoldable pub create_settlement_expense : ℕ → Env → M (Unit {0})
unfolding paid_settlement is_line_in settled_line
create_settlement_expense id env = do
  t ← or_throw (← gets (λ s. lookup id s.rep_settlements)) record_not_found
  or_throw (← gets (λ s. lookup t.representative_id s.representatives)) record_not_found
  modify (λ s. record s {
    expenses =
        insert env.new_id (record { amount = t.total_commission; expense_date = env.now })
          s.expenses;
  })
  guard (same_settlement_status t.status SettlementStatus.approved && not (is_some t.expense_id))
      settlement_already_paid
  put_settlement id (paid_settlement t env.new_id env.now)
  change_lines (is_line_in id LineStatus.approved) settled_line

unfoldable pub check_lines : ℕ → RepSettlement → M (Unit {0})
unfolding lines_unchanged
check_lines id t = do unchanged ← gets (lines_unchanged id t); guard unchanged lines_reversed

-- PaySettlementDto.
pub record PayForm : Type 0 where
  pub mode : PaymentMode
  pub reference : Option String
  pub cheque_number : Option String
  pub bank_name : Option String
  pub cheque_date : Option ℕ

unfoldable pub require_details : PayForm → Result (Unit {0})
unfolding is_blank
require_details form =
    require
      (not (
        is_cheque form.mode
        && (is_blank form.cheque_number
            || is_blank form.bank_name
            || not (is_some form.cheque_date))))
      cheque_fields_required

-- The row with how it is paid, and a cheque's status.
unfoldable pub payment_recorded : RepSettlement → PayForm → RepSettlement
payment_recorded t form = record t {
  mode = some form.mode;
  reference = if is_cheque form.mode then none else form.reference;
  cheque_number = when_cheque form.mode form.cheque_number;
  bank_name = when_cheque form.mode form.bank_name;
  cheque_date = when_cheque form.mode form.cheque_date;
  cheque_status = when_cheque form.mode (some pending);
}

unfoldable pub pay : ℕ → PayForm → Env → M (Unit {0})
unfolding require_details check_lines payment_recorded create_settlement_expense
pay id form env = do
  t ← find_settlement id
  lift (require_details form)
  guard (same_settlement_status t.status SettlementStatus.approved) wrong_settlement_status
  guard (not (has_pending_cheque t)) settlement_cheque_pending
  check_lines id t
  put_settlement id (payment_recorded t form)
  (if is_cheque form.mode then pure tt else create_settlement_expense id env)
  log Activity.paid_settlement id

unfoldable pub restamped_settlement : RepSettlement → ChequeStatus → RepSettlement
restamped_settlement t status = record t { cheque_status = some status }

abbrev pub is_cheque_mode : Option PaymentMode → Bool
is_cheque_mode none = false
is_cheque_mode (some mode) = is_cheque mode

-- The checks and writes for a cheque that has cleared.
abbrev pub when_cleared : ChequeStatus → M (Unit {0}) → M (Unit {0})
when_cleared status m = if same_status status cleared then m else pure tt

unfoldable pub update_cheque_status : ℕ → ChequeStatus → Env → M (Unit {0})
unfolding check_lines restamped_settlement create_settlement_expense
update_cheque_status id status env = do
  t ← find_settlement id
  guard (is_cheque_mode t.mode && is_some t.cheque_status) not_a_cheque
  guard (same_settlement_status t.status SettlementStatus.approved) wrong_settlement_status
  lift (assert_cheque_transition ChequeKind.settlement t.cheque_status status none env.now)
  when_cleared status (check_lines id t)
  put_settlement id (restamped_settlement t status)
  when_cleared status (create_settlement_expense id env)
  log Activity.updated_settlement_cheque_status id

unfoldable pub reversed_settlement : RepSettlement → ℕ → RepSettlement
reversed_settlement t now = record t { status = SettlementStatus.reversed; reversed_at = some now }

unfoldable pub reverse_payment : ℕ → Env → M (Unit {0})
unfolding reversed_settlement is_line_in released
reverse_payment id env = do
  t ← find_settlement id
  guard (same_settlement_status t.status SettlementStatus.paid && is_some t.expense_id)
      wrong_settlement_status
  modify (λ s. record s {
    cash_adjustments =
        insert env.new_id
          (record {
            type = CashAdjustmentType.settlement_reversal;
            amount = t.total_commission;
            adjustment_date = env.now;
            settlement_id = some id;
          })
          s.cash_adjustments;
  })
  put_settlement id (reversed_settlement t env.now)
  change_lines (is_line_in id LineStatus.settled) released
  log Activity.reversed_settlement_payment id

-- The routes of commission.controller.ts that move a settlement.
pub data SettlementRequest : Type 0 where
  create_batch : ℕ → ℕ → ℕ → SettlementRequest
  approve_batch reject_batch reverse_batch : ℕ → SettlementRequest
  pay_batch : ℕ → PayForm → SettlementRequest
  set_batch_cheque : ℕ → ChequeStatus → SettlementRequest

unfoldable pub handle_batch : SettlementRequest → Env → M (Unit {0})
handle_batch (create_batch representative from to) env = create representative from to env
handle_batch (approve_batch id) env = approve id env
handle_batch (reject_batch id) env = reject id
handle_batch (reverse_batch id) env = reverse_payment id env
handle_batch (pay_batch id form) env = pay id form env
handle_batch (set_batch_cheque id status) env = update_cheque_status id status env
