-- ===== src/Examples/Money.antt =====
-- What the services do with money, on small databases.
use electro_mart_backend.Prelude.{
  ◌<◌, ◌≡◌, refl, true, false, none, some, List, [], ◌∷◌, arith, ◌↔◌, ◌≤◌,
}
use electro_mart_backend.Prelude.Int.{pos}
use electro_mart_backend.Result.{ok}
use electro_mart_backend.Cheques.{PaymentMode, ChequeStatus, ChequeKind, assert_cheque_transition}
use electro_mart_backend.Cheques.Lifecycle.{check-iff-Allowed, Allowed}
use electro_mart_backend.Clock.{
  business_date_of, start_of_business_day, start_of_next_business_day, business_date_range,
}
use electro_mart_backend.Clock.Days.{day_interval_iff, business_date_range_iff, passes}
use electro_mart_backend.Rows.{RefundParty}
use electro_mart_backend.Store.{Store, Env}
use electro_mart_backend.Store.After.{After}
use electro_mart_backend.Ledger.{IsBalanced}
use electro_mart_backend.Payments.Form.{PaymentForm}
use electro_mart_backend.Payments.History.{
  Request, create_payment, set_cheque_status, undo_payment, run, run-IsConsistent,
}
use electro_mart_backend.Payments.Fit.{create-fits, IsPaidUp}
use electro_mart_backend.Payments.RoundTrip.{undo_last-edit}
use electro_mart_backend.Payments.Changes.{create, edit}
use electro_mart_backend.Payments.Undo.{undo_last}
use electro_mart_backend.Refunds.RoundTrip.{restore-cancel}
use electro_mart_backend.Refunds.Changes.{cancel, restore}
use electro_mart_backend.Refunds.Form.{new_refund}
use electro_mart_backend.Payments.Form.{new_payment}
use electro_mart_backend.Examples.Data.{one_dealer}
use electro_mart_backend.Prelude.Int.{negsuc}
use electro_mart_backend.Payments.Consistency.{IsConsistent}
use electro_mart_backend.Refunds.Form.{RefundForm}
use electro_mart_backend.Refunds.History.{create_refund, handle_refund, handle_refund-IsBalanced}
use electro_mart_backend.Examples.Data.{
  env, owing, in_credit, owing-IsBalanced, in_credit-IsBalanced,
}

-- A cheque for 4000 cents.
abbrev cheque_form : PaymentForm
cheque_form = record {
  amount = pos 4000;
  mode = PaymentMode.cheque;
  reference = none;
  payment_date = 95000000;
  bank_name = some "BOC";
  cheque_number = some "001";
  cheque_date = some 95000000;
  collected_date = some 95000000;
  remarks = none;
  excess_to_wallet = false;
}

-- The cheque is received, comes back, and that is undone.
abbrev cheque_history : List (Request × Env)
cheque_history =
    (create_payment cheque_form 2 false, env)
    ∷ (set_cheque_status 50 ChequeStatus.returned false, record env { revision_id = 61 })
    ∷ (undo_payment 50 (some 61), record env { revision_id = 62 })
    ∷ []

owing-IsConsistent : IsConsistent (λ _. 7) (λ _. 7) owing
owing-IsConsistent = (owing-IsBalanced, (tt, tt, (refl, tt)))

run-IsConsistent_example : IsConsistent (λ _. 7) (λ _. 7) (run cheque_history owing)
run-IsConsistent_example =
    run-IsConsistent (λ _. 7) (λ _. 7) cheque_history owing (refl, (tt, (tt, tt)))
      owing-IsConsistent

-- 1500 cents in cash, back to the dealer in credit.
abbrev refund_form : RefundForm
refund_form = record {
  amount = pos 1500;
  mode = PaymentMode.cash;
  refund_date = 95000000;
  purchase_id = none;
  cheque_number = none;
  bank_name = none;
  cheque_date = none;
}

handle_refund-IsBalanced_example :
    After
      (handle_refund
        (create_refund refund_form RefundParty.dealer (some 7) none false)
        env
        in_credit)
      (λ _ t. IsBalanced t)
handle_refund-IsBalanced_example =
    handle_refund-IsBalanced (create_refund refund_form RefundParty.dealer (some 7) none false) env
      in_credit in_credit-IsBalanced

check-iff-Allowed_example :
    (assert_cheque_transition ChequeKind.supplier
        (some ChequeStatus.returned)
        ChequeStatus.pending
        (some 95000000)
        100000000
      ≡ ok tt)
    ↔ Allowed ChequeKind.supplier ChequeStatus.returned ChequeStatus.pending
        (some 95000000)
        100000000
check-iff-Allowed_example =
    check-iff-Allowed ChequeKind.supplier ChequeStatus.returned ChequeStatus.pending (some 95000000)
      100000000

day_interval_iff_example :
    ((start_of_business_day 100000000 ≤ 120000000)
      × (120000000 < start_of_next_business_day 100000000))
    ↔ (business_date_of 120000000 ≡ business_date_of 100000000)
day_interval_iff_example = day_interval_iff 100000000 120000000 (omega arith)

business_date_range_iff_example :
    (passes (business_date_range (some 100000000) (some 200000000)) 150000000 ≡ true) ↔ (
      (business_date_of 100000000 ≤ business_date_of 150000000)
      × (business_date_of 150000000 ≤ business_date_of 200000000))
business_date_range_iff_example =
    business_date_range_iff 100000000 200000000 150000000 (omega arith) (omega arith)

create-fits_example : After (create cheque_form 2 false env owing) (λ _ t. IsPaidUp 2 t)
create-fits_example = create-fits cheque_form 2 false env owing refl

-- The cheque, once it is recorded, and an edit of it to 2500 cents.
abbrev paid_by_cheque : Store
paid_by_cheque = record owing {
  dealers = one_dealer (pos 6000);
  payments = (50, new_payment cheque_form 2 7 100000000) ∷ [];
}

undo_last-edit_example :
    After
      (edit 50 (record cheque_form { amount = pos 2500 }) env paid_by_cheque)
      (λ _ t. After (undo_last 50 none env t) (λ _ u. u.payments ≡ paid_by_cheque.payments))
undo_last-edit_example =
    undo_last-edit 50 (record cheque_form { amount = pos 2500 }) env env paid_by_cheque tt

-- 1500 cents are paid back to the dealer in credit.
abbrev refunded : Store
refunded = record in_credit {
  dealers = one_dealer (negsuc 2499);
  refunds = (9, new_refund refund_form RefundParty.dealer (some 7) none none 95000000) ∷ [];
}

restore-cancel_example :
    After
      (cancel 9 env refunded)
      (λ _ t. After (restore 9 env t) (λ _ u. u.refunds ≡ refunded.refunds))
restore-cancel_example = restore-cancel 9 env env refunded
