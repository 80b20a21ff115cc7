-- ===== src/Commission/PaidOut.antt =====
-- Every settlement request keeps the money paid out in step with the settlements that are paid.
use electro_mart_backend.Prelude.{refl, some, ◌≡◌, ℕ}
use electro_mart_backend.Commission.Settlements.{
  set_batch_cheque, pay_batch, reverse_batch, reject_batch, approve_batch, create_batch, PayForm,
  restamped_settlement, SettlementRequest, pay, handle_batch, payment_recorded,
  update_cheque_status, create, rejected_settlement, approved_settlement, reversed_settlement,
  paid_settlement, approve, reverse_payment, reject, create_settlement_expense,
}
use electro_mart_backend.Rows.Commission.{RepSettlement}
use electro_mart_backend.Prelude.Int.{ℤ}
use electro_mart_backend.Table.{update, lookup}
use electro_mart_backend.Store.{pure, Env, log, Store}
use electro_mart_backend.Store.After.{
  if_After, next-After, read-After, lift-After, done, guard-After, or_throw-After, After,
}
use electro_mart_backend.Cheques.{cleared, same_status, ChequeStatus, is_cheque}
use electro_mart_backend.Commission.Payouts.{
  open-cost, returned-IsPaidOut, put-IsPaidOut, bought-IsPaidOut, inserted-IsPaidOut, IsPaidOut,
  cost,
}
use electro_mart_backend.Commission.Reads.{when_cleared-Reads, check_lines-Reads}

create-IsPaidOut :
    (other : ℤ) (representative from to : ℕ) (env : Env) (s : Store)
    → IsPaidOut other s
    → After (create representative from to env s) (λ _ t. IsPaidOut other t)
unfolding create log
create-IsPaidOut other representative from to env s paid_out = or_throw-After _ _ s _ (λ _ _.
    guard-After _ _ s _ (λ _.
      guard-After _ _ s _
        (λ _. guard-After _ _ _ _ (λ _. done (inserted-IsPaidOut other _ _ s refl paid_out)))))

approve-IsPaidOut :
    (other : ℤ) (id : ℕ) (env : Env) (s : Store)
    → IsPaidOut other s
    → After (approve id env s) (λ _ t. IsPaidOut other t)
unfolding approve log approved_settlement cost
approve-IsPaidOut other id env s paid_out = or_throw-After _ _ s _ (λ t found.
    guard-After _ _ s _ (λ open_. done (
      put-IsPaidOut other id (approved_settlement t env.now) t s found
        (rw (open-cost t (rw open_ refl)) refl) paid_out)))

reject-IsPaidOut :
    (other : ℤ) (id : ℕ) (s : Store)
    → IsPaidOut other s
    → After (reject id s) (λ _ t. IsPaidOut other t)
unfolding reject log rejected_settlement cost
reject-IsPaidOut other id s paid_out = or_throw-After _ _ s _ (λ t found.
    guard-After _ _ s _ (λ open_. guard-After _ _ s _ (λ _. done (
      put-IsPaidOut other id (rejected_settlement t) t s found (rw (open-cost t open_) refl)
        paid_out))))

create_settlement_expense-IsPaidOut :
    (other : ℤ) (id : ℕ) (env : Env) (s : Store)
    → IsPaidOut other s
    → After (create_settlement_expense id env s) (λ _ t. IsPaidOut other t)
unfolding create_settlement_expense paid_settlement
create_settlement_expense-IsPaidOut other id env s paid_out = or_throw-After _ _ s _ (λ t found.
    or_throw-After _ _ s _ (λ _ _.
      guard-After _ _ _ _
        (λ open_. done (bought-IsPaidOut other id env.new_id t env.now s found open_ paid_out))))

reverse_payment-IsPaidOut :
    (other : ℤ) (id : ℕ) (env : Env) (s : Store)
    → IsPaidOut other s
    → After (reverse_payment id env s) (λ _ t. IsPaidOut other t)
unfolding reverse_payment reversed_settlement log
reverse_payment-IsPaidOut other id env s paid_out = or_throw-After _ _ s _ (λ t found.
    guard-After _ _ s _
      (λ open_. done (returned-IsPaidOut other id env.new_id t env.now s found open_ paid_out)))

put_payment-IsPaidOut :
    (other : ℤ) (id : ℕ) (t : RepSettlement) (form : PayForm) (s : Store)
    → lookup id s.rep_settlements ≡ some t
    → IsPaidOut other s
    → IsPaidOut other
        (record s { rep_settlements = update id (payment_recorded t form) s.rep_settlements })
unfolding payment_recorded cost
put_payment-IsPaidOut other id t form s found paid_out =
    put-IsPaidOut other id (payment_recorded t form) t s found refl paid_out

pay-IsPaidOut :
    (other : ℤ) (id : ℕ) (form : PayForm) (env : Env) (s : Store)
    → IsPaidOut other s
    → After (pay id form env s) (λ _ t. IsPaidOut other t)
unfolding pay log
pay-IsPaidOut other id form env s paid_out = or_throw-After _ _ s _ (λ t found.
    lift-After _ s _ (λ _ _. guard-After _ _ s _ (λ _. guard-After _ _ s _ (λ _.
      read-After _ (check_lines-Reads id t s) (λ _ _.
        let kept = put_payment-IsPaidOut other id t form s found paid_out in
        next-After
          (if_After (is_cheque form.mode) (pure tt) (create_settlement_expense id env) _
            (λ _. done kept) (λ _. create_settlement_expense-IsPaidOut other id env _ kept))
          (λ _ _ still. done still))))))

update_cheque_status-IsPaidOut :
    (other : ℤ) (id : ℕ) (status : ChequeStatus) (env : Env) (s : Store)
    → IsPaidOut other s
    → After (update_cheque_status id status env s) (λ _ t. IsPaidOut other t)
unfolding update_cheque_status restamped_settlement log cost
update_cheque_status-IsPaidOut other id status env s paid_out = or_throw-After _ _ s _ (λ t found.
    guard-After _ _ s _ (λ _. guard-After _ _ s _ (λ _. lift-After _ s _ (λ _ _.
      read-After _ (when_cleared-Reads status id t s) (λ _ _.
        let kept = put-IsPaidOut other id (restamped_settlement t status) t s found refl paid_out in
        next-After
          (if_After (same_status status cleared) (create_settlement_expense id env) (pure tt) _
            (λ _. create_settlement_expense-IsPaidOut other id env _ kept) (λ _. done kept))
          (λ _ _ still. done still))))))

-- A settlement request that commits keeps this, if it held before: the expenses, less the cash that
-- reversals of payouts brought back, are the total commission of the settlements that are paid, and an
-- amount that does not change. So a settlement is never paid for twice, and a reversal brings back
-- what its payout cost.
pub handle_batch-IsPaidOut :
    (other : ℤ) (q : SettlementRequest) (env : Env) (s : Store)
    → IsPaidOut other s
    → After (handle_batch q env s) (λ _ t. IsPaidOut other t)
unfolding handle_batch
handle_batch-IsPaidOut other (create_batch representative from to) env s paid_out =
    create-IsPaidOut other representative from to env s paid_out
handle_batch-IsPaidOut other (approve_batch id) env s paid_out =
    approve-IsPaidOut other id env s paid_out
handle_batch-IsPaidOut other (reject_batch id) env s paid_out = reject-IsPaidOut other id s paid_out
handle_batch-IsPaidOut other (reverse_batch id) env s paid_out =
    reverse_payment-IsPaidOut other id env s paid_out
handle_batch-IsPaidOut other (pay_batch id form) env s paid_out =
    pay-IsPaidOut other id form env s paid_out
handle_batch-IsPaidOut other (set_batch_cheque id status) env s paid_out =
    update_cheque_status-IsPaidOut other id status env s paid_out
