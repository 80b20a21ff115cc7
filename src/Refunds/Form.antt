-- ===== src/Refunds/Form.antt =====
-- The request bodies of src/refunds/dto, when a refund counts, and the rows that are written.
use electro_mart_backend.Prelude.{
  ℕ, Bool, not, ◌&&◌, ◌||◌, Option, none, some, String, if◌then◌else◌, is_some,
}
use electro_mart_backend.Prelude.Int.{ℤ, pos}
use electro_mart_backend.Result.{Result, require, cheque_fields_required}
use electro_mart_backend.Cheques.{PaymentMode, is_cheque, pending}
use electro_mart_backend.Rows.{Refund, RefundParty}
use electro_mart_backend.Invoicing.{is_returned}
use electro_mart_backend.Payments.Form.{is_blank, when_cheque}

-- CreateRefundDto and UpdateRefundDto.
pub record RefundForm : Type 0 where
  pub amount : ℤ
  pub mode : PaymentMode
  pub refund_date : ℕ
  pub purchase_id : Option ℕ
  pub cheque_number : Option String
  pub bank_name : Option String
  pub cheque_date : Option ℕ

unfoldable pub is_effective_refund : Refund → Bool
is_effective_refund r =
    not (is_some r.cancelled_at) && not (is_cheque r.mode && is_returned r.cheque_status)

unfoldable pub effective_amount : Refund → ℤ
unfolding is_effective_refund
effective_amount r = if is_effective_refund r then r.amount else pos 0

unfoldable pub require_cheque_details : RefundForm → Result (Unit {0})
unfolding is_blank
require_cheque_details form =
    require
      (not (
        is_cheque form.mode
        && (is_blank form.cheque_number
            || is_blank form.bank_name
            || not (is_some form.cheque_date))))
      cheque_fields_required

-- The row that `create` writes, for one party.
unfoldable pub new_refund : RefundForm → RefundParty → Option ℕ → Option ℕ → Option ℕ → ℕ → Refund
new_refund form party dealer_id supplier_id purchase_id now = record {
  party = party;
  dealer_id = dealer_id;
  supplier_id = supplier_id;
  purchase_id = purchase_id;
  amount = form.amount;
  mode = form.mode;
  refund_date = form.refund_date;
  cheque_status = when_cheque form.mode (some pending);
  cheque_status_updated_at = when_cheque form.mode (some now);
  cheque_number = when_cheque form.mode form.cheque_number;
  bank_name = when_cheque form.mode form.bank_name;
  cheque_date = when_cheque form.mode form.cheque_date;
  cancelled_at = none;
  created_at = now;
}

-- The row that `update` writes.
unfoldable pub edited_refund : RefundForm → Option ℕ → Refund → ℕ → Refund
edited_refund form purchase_id r now = record r {
  amount = form.amount;
  mode = form.mode;
  refund_date = form.refund_date;
  purchase_id = purchase_id;
  cheque_status =
      if is_cheque form.mode
      then if is_cheque r.mode then r.cheque_status else some pending
      else none;
  cheque_status_updated_at =
      if is_cheque form.mode
      then if is_cheque r.mode then r.cheque_status_updated_at else some now
      else none;
  cheque_number = when_cheque form.mode form.cheque_number;
  bank_name = when_cheque form.mode form.bank_name;
  cheque_date = when_cheque form.mode form.cheque_date;
}
