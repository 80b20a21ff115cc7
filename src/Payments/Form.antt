-- ===== src/Payments/Form.antt =====
-- The request bodies CreatePaymentDto and UpdatePaymentDto of src/payments/dto, and the checks of
-- them that need no database. Dates arrive as instants, parsed by the JavaScript runtime.
use text.Mathlib.Text.{◌==◌ as str_eq}
use electro_mart_backend.Prelude.{
  ℕ, Bool, true, not, ◌||◌, Option, none, some, String, if◌then◌else◌, is_some, or_else,
}
use electro_mart_backend.Prelude.Int.{ℤ}
use electro_mart_backend.Result.{Result, ok, err, cheque_fields_required}
use electro_mart_backend.Cheques.{PaymentMode, is_cheque, ChequeStatus, pending}
use electro_mart_backend.Rows.{Payment}
use electro_mart_backend.Clock.{assert_not_future_business_date}

pub record PaymentForm : Type 0 where
  pub amount : ℤ
  pub mode : PaymentMode
  pub reference : Option String
  pub payment_date : ℕ
  pub bank_name : Option String
  pub cheque_number : Option String
  pub cheque_date : Option ℕ
  pub collected_date : Option ℕ
  pub remarks : Option String
  pub excess_to_wallet : Bool

-- `!text`, true of a missing and of an empty text.
unfoldable pub is_blank : Option String → Bool
is_blank none = true
is_blank (some t) = str_eq t ""

unfoldable pub validate_cheque_fields : PaymentForm → ℕ → Result (Unit {0})
unfolding is_blank assert_not_future_business_date
validate_cheque_fields form now =
    if not (is_cheque form.mode)
    then ok tt
    else if is_blank form.bank_name
        || is_blank form.cheque_number
        || not (is_some form.cheque_date)
        || not (is_some form.collected_date)
    then err cheque_fields_required
    else assert_not_future_business_date (or_else form.collected_date 0) now

abbrev pub when_cheque {ℓ} : {A : Type ℓ} → PaymentMode → Option A → Option A
when_cheque mode a = if is_cheque mode then a else none

-- The row that `create` writes.
unfoldable pub new_payment : PaymentForm → ℕ → ℕ → ℕ → Payment
new_payment form invoice_id dealer_id now = record {
  invoice_id = some invoice_id;
  dealer_id = dealer_id;
  amount = form.amount;
  mode = form.mode;
  reference = form.reference;
  payment_date = form.payment_date;
  created_at = now;
  cheque_status = when_cheque form.mode (some pending);
  cheque_status_updated_at = when_cheque form.mode (some now);
  bank_name = when_cheque form.mode form.bank_name;
  cheque_number = when_cheque form.mode form.cheque_number;
  cheque_date = when_cheque form.mode form.cheque_date;
  collected_date = when_cheque form.mode form.collected_date;
  remarks = form.remarks;
}

-- The status of an edited payment: one that stays a cheque keeps its own, one that becomes a cheque
-- starts pending.
unfoldable pub edited_status : PaymentForm → Payment → Option ChequeStatus
edited_status form p =
    if is_cheque form.mode then if is_cheque p.mode then p.cheque_status else some pending else none

-- The row that `update` writes. A field that the request leaves out (`reference`, `remarks`) keeps its
-- stored value, since Prisma reads `undefined` as "do not change".
unfoldable pub edited_payment : PaymentForm → Payment → ℕ → Payment
unfolding edited_status
edited_payment form p now = record p {
  amount = form.amount;
  mode = form.mode;
  reference = if is_some form.reference then form.reference else p.reference;
  payment_date = form.payment_date;
  cheque_status = edited_status form p;
  cheque_status_updated_at =
      if is_cheque form.mode
      then if is_cheque p.mode then p.cheque_status_updated_at else some now
      else none;
  bank_name = when_cheque form.mode form.bank_name;
  cheque_number = when_cheque form.mode form.cheque_number;
  cheque_date = when_cheque form.mode form.cheque_date;
  collected_date = when_cheque form.mode form.collected_date;
  remarks = if is_some form.remarks then form.remarks else p.remarks;
}
