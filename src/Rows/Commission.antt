-- ===== src/Rows/Commission.antt =====
-- The rows of the commission services: CommissionRule, CommissionLedgerEntry and
-- RepresentativeSettlement, with the expenses and cash adjustments that a payout writes.
use electro_mart_backend.Prelude.{ℕ, Bool, Option, String}
use electro_mart_backend.Prelude.Int.{ℤ}
use electro_mart_backend.Cheques.{PaymentMode, ChequeStatus}

pub data LineStatus : Type 0 where
  pending approved settled reversed : LineStatus

-- A row of CommissionLedgerEntry, less the columns that only reports read.
pub record CommissionLine : Type 0 where
  pub representative_id : ℕ
  pub order_id : ℕ
  pub product_id : ℕ
  pub amount : ℤ
  pub status : LineStatus
  pub settlement_id : Option ℕ
  pub created_at : ℕ

pub data SettlementStatus : Type 0 where
  pending approved rejected paid reversed : SettlementStatus

pub record RepSettlement : Type 0 where
  pub representative_id : ℕ
  pub period_start : ℕ
  pub period_end : ℕ
  pub total_commission : ℤ
  pub status : SettlementStatus
  pub mode : Option PaymentMode
  pub reference : Option String
  pub cheque_status : Option ChequeStatus
  pub cheque_number : Option String
  pub bank_name : Option String
  pub cheque_date : Option ℕ
  pub expense_id : Option ℕ
  pub approved_at : Option ℕ
  pub paid_at : Option ℕ
  pub reversed_at : Option ℕ

pub data CommissionType : Type 0 where
  percentage fixed : CommissionType

pub record CommissionRule : Type 0 where
  pub product_id : ℕ
  pub type : CommissionType
  pub value : ℤ
  pub start_date : ℕ
  pub end_date : Option ℕ
  pub is_campaign : Bool

pub record Expense : Type 0 where
  pub amount : ℤ
  pub expense_date : ℕ

pub data CashAdjustmentType : Type 0 where
  opening_balance adjustment settlement_reversal : CashAdjustmentType

pub record CashAdjustment : Type 0 where
  pub type : CashAdjustmentType
  pub amount : ℤ
  pub adjustment_date : ℕ
  pub settlement_id : Option ℕ
