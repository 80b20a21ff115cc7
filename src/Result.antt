-- ===== src/Result.antt =====
-- The exceptions that the services throw (`NotFoundException`, `BadRequestException`,
-- `ConflictException`, ...), each by the message it carries, and results that may be one.
use electro_mart_backend.Prelude.{refl, inr, inl, ◌⊎◌, ◌≡◌, Bool, true, false}

pub data Error : Type 0 where
  -- Prisma's P2025, of `update`, `delete` and `findUniqueOrThrow` on a missing row
  record_not_found : Error
  dealer_not_found invoice_not_found payment_not_found order_not_found : Error
  supplier_not_found purchase_not_found product_not_found : Error
  refund_not_found credit_use_not_found sales_return_not_found settlement_not_found : Error
  no_cheque_status already_in_status illegal_transition revert_window_over : Error
  cheque_fields_required date_in_future possible_duplicate : Error
  exceeds_invoice_balance no_invoice not_a_cheque wallet_overdrawn : Error
  already_undone nothing_to_undo changed_meanwhile invoice_gone : Error
  payment_exists payment_is_deleted : Error
  amount_not_positive exceeds_available exceeds_due : Error
  party_required refund_cancelled not_cancelled already_cancelled exceeds_credit : Error
  purchase_of_other_supplier only_supplier_refunds : Error
  exceeds_supplier_balance not_deletable : Error
  too_many_serials insufficient_stock order_not_completed duplicate_product not_in_order
        exceeds_returnable :
      Error
  wrong_order_status already_completed exceeds_credit_limit : Error
  return_not_editable : Error
  representative_not_found period_reversed no_pending_lines lines_taken : Error
  settlement_cheque_pending lines_reversed settlement_already_paid : Error
  wrong_settlement_status : Error
  purchase_is_cancelled purchase_has_returns purchase_has_refunds supplier_overpaid : Error
  both_discounts negative_discount discount_too_large discount_not_percentage : Error
  order_has_payments order_used_credit not_latest_invoice : Error

pub data Result {ℓ} (A : Type ℓ) : Type ℓ where
  ok : A → Result A
  err : Error → Result A

-- `if (!c) throw e`
abbrev pub require : Bool → Error → Result (Unit {0})
require true e = ok tt
require false e = err e

pub check_cases : (r : Result (Unit {0})) → (r ≡ ok tt) ⊎ ((e : Error) × (r ≡ err e))
check_cases (ok tt) = inl refl
check_cases (err e) = inr (e, refl)
