-- ===== src/Commission/Advances.antt =====
-- Every settlement request moves a settlement along the steps of its life, if at all.
use electro_mart_backend.Prelude.{◌⊎◌, refl, ◌||◌, arith, true, none, some, ◌≡◌, ℕ}
use electro_mart_backend.Store.{pure, log, Env, Store}
use electro_mart_backend.Rows.Commission.{RepSettlement, SettlementStatus}
use electro_mart_backend.Table.{update, lookup}
use electro_mart_backend.Commission.Lines.{same_settlement_status}
use electro_mart_backend.Commission.Settlements.{
  set_batch_cheque, pay_batch, reverse_batch, reject_batch, approve_batch, PayForm,
  payment_recorded, create_batch, restamped_settlement, handle_batch, SettlementRequest, create,
  pay, update_cheque_status, reversed_settlement, rejected_settlement, approved_settlement,
  paid_settlement, create_settlement_expense, approve, reverse_payment, reject,
}
use electro_mart_backend.Store.After.{
  next-After, read-After, lift-After, After-ok, After-mono, done, if_After, guard-After,
  or_throw-After, After,
}
use electro_mart_backend.Commission.Reads.{when_cleared-Reads, check_lines-Reads}
use electro_mart_backend.Cheques.{cleared, same_status, is_cheque, ChequeStatus}
use electro_mart_backend.Result.{ok}
use electro_mart_backend.Commission.Progress.{
  approves, pays, reverses, status_of_check, rejects_approved, after, stepped-IsNext, Advances-refl,
  rejects_pending, Advances-trans, stays, insert-Advances, put-Advances, Steps, Advances, IsNext,
  Step,
}

approve-Advances : (id : ℕ) (env : Env) (s : Store) → After (approve id env s) (λ _ t. Advances s t)
unfolding approve log approved_settlement
approve-Advances id env s = or_throw-After _ _ s _ (λ t found. guard-After _ _ s _ (λ open_. done (
    put-Advances id t (approved_settlement t env.now) s found (
      stepped-IsNext t _ (rw (status_of_check t.status SettlementStatus.pending open_) approves)
        refl refl))))

rejecting :
    (x : SettlementStatus)
    → same_settlement_status x SettlementStatus.pending
        || same_settlement_status x SettlementStatus.approved
      ≡ true
    → Step x SettlementStatus.rejected
rejecting SettlementStatus.pending h = rejects_pending
rejecting SettlementStatus.approved h = rejects_approved
rejecting SettlementStatus.rejected h = absurd (ground arith)
rejecting SettlementStatus.paid h = absurd (ground arith)
rejecting SettlementStatus.reversed h = absurd (ground arith)

reject-Advances : (id : ℕ) (s : Store) → After (reject id s) (λ _ t. Advances s t)
unfolding reject log rejected_settlement
reject-Advances id s = or_throw-After _ _ s _ (λ t found. guard-After _ _ s _ (λ open_.
    guard-After _ _ s _ (λ _. done (
      put-Advances id t (rejected_settlement t) s found
        (stepped-IsNext t _ (rejecting t.status open_) refl refl)))))

reverse_payment-Advances :
    (id : ℕ) (env : Env) (s : Store) → After (reverse_payment id env s) (λ _ t. Advances s t)
unfolding reverse_payment log reversed_settlement
reverse_payment-Advances id env s = or_throw-After _ _ s _ (λ t found.
    guard-After _ _ s _ (λ closed. done (
      put-Advances id t (reversed_settlement t env.now) s found (
        stepped-IsNext t _
          (rw (status_of_check t.status SettlementStatus.paid (ground arith)) reverses) refl
          refl))))

create_settlement_expense-Advances :
    (id : ℕ) (env : Env) (s : Store)
    → After (create_settlement_expense id env s) (λ _ t. Advances s t)
unfolding create_settlement_expense paid_settlement
create_settlement_expense-Advances id env s = or_throw-After _ _ s _ (λ t found.
    or_throw-After _ _ s _ (λ _ _. guard-After _ _ _ _ (λ open_. done (
      put-Advances id t (paid_settlement t env.new_id env.now) s found (
        stepped-IsNext t _
          (rw (status_of_check t.status SettlementStatus.approved (ground arith)) pays) refl
          refl)))))

-- A write that keeps the status, and then what pays.
kept_then_paid :
    (id : ℕ) (t new : RepSettlement) (env : Env) (s : Store)
    → lookup id s.rep_settlements ≡ some t
    → IsNext t new
    → After
        (create_settlement_expense id env
          (record s { rep_settlements = update id new s.rep_settlements }))
        (λ _ u. Advances s u)
kept_then_paid id t new env s found next_ =
    let put : Store = record s { rep_settlements = update id new s.rep_settlements } in
    After-mono (λ _ u more. Advances-trans s put u (put-Advances id t new s found next_) more)
      (create_settlement_expense-Advances id env put)

pay-Advances :
    (id : ℕ) (form : PayForm) (env : Env) (s : Store)
    → After (pay id form env s) (λ _ t. Advances s t)
unfolding pay log payment_recorded
pay-Advances id form env s = or_throw-After _ _ s _ (λ t found. lift-After _ s _ (λ _ _.
    guard-After _ _ s _ (λ _. guard-After _ _ s _ (λ _.
      read-After _ (check_lines-Reads id t s) (λ _ _.
        let new = payment_recorded t form in
        let same : IsNext t new = record {
          steps = stays t.status;
          same_total = refl;
          same_representative = refl;
        } in
        next-After
          (if_After (is_cheque form.mode) (pure tt) (create_settlement_expense id env) _
            (λ _. done (put-Advances id t new s found same))
            (λ _. kept_then_paid id t new env s found same))
          (λ _ _ still. done still))))))

update_cheque_status-Advances :
    (id : ℕ) (status : ChequeStatus) (env : Env) (s : Store)
    → After (update_cheque_status id status env s) (λ _ t. Advances s t)
unfolding update_cheque_status log restamped_settlement
update_cheque_status-Advances id status env s = or_throw-After _ _ s _ (λ t found.
    guard-After _ _ s _ (λ _. guard-After _ _ s _ (λ _. lift-After _ s _ (λ _ _.
      read-After _ (when_cleared-Reads status id t s) (λ _ _.
        let new = restamped_settlement t status in
        let same : IsNext t new = record {
          steps = stays t.status;
          same_total = refl;
          same_representative = refl;
        } in
        next-After
          (if_After (same_status status cleared) (create_settlement_expense id env) (pure tt) _
            (λ _. kept_then_paid id t new env s found same)
            (λ _. done (put-Advances id t new s found same)))
          (λ _ _ still. done still))))))

create-Advances :
    (representative from to : ℕ) (env : Env) (s : Store)
    → lookup env.new_id s.rep_settlements ≡ none
    → After (create representative from to env s) (λ _ t. Advances s t)
unfolding create log
create-Advances representative from to env s fresh = or_throw-After _ _ s _ (λ _ _.
    guard-After _ _ s _ (λ _.
      guard-After _ _ s _
        (λ _. guard-After _ _ _ _ (λ _. done (insert-Advances env.new_id _ s fresh)))))

handle_batch-Advances :
    (q : SettlementRequest) (env : Env) (s : Store)
    → lookup env.new_id s.rep_settlements ≡ none
    → After (handle_batch q env s) (λ _ t. Advances s t)
unfolding handle_batch
handle_batch-Advances (create_batch representative from to) env s fresh =
    create-Advances representative from to env s fresh
handle_batch-Advances (approve_batch id) env s fresh = approve-Advances id env s
handle_batch-Advances (reject_batch id) env s fresh = reject-Advances id s
handle_batch-Advances (reverse_batch id) env s fresh = reverse_payment-Advances id env s
handle_batch-Advances (pay_batch id form) env s fresh = pay-Advances id form env s
handle_batch-Advances (set_batch_cheque id status) env s fresh =
    update_cheque_status-Advances id status env s

-- The states that committed requests lead to, the database handing out a new id for each.
pub data Reaches : Store → Store → Type 0 where
  nothing_done : (s : Store) → Reaches s s
  request :
      (s t u : Store) (q : SettlementRequest) (env : Env)
      → lookup env.new_id s.rep_settlements ≡ none
      → handle_batch q env s ≡ ok (tt, t)
      → Reaches t u
      → Reaches s u

-- The settlements of the service implement the state machine `Step`: in every state that committed
-- requests lead to, each settlement of the state before is there, some steps of the machine on, for
-- the same representative and the same total.
pub Reaches-Advances : (s t : Store) → Reaches s t → Advances s t
Reaches-Advances s t (nothing_done _) = Advances-refl s
Reaches-Advances s u (request _ t _ q env fresh committed rest) =
    Advances-trans s t u (After-ok (handle_batch-Advances q env s fresh) committed)
      (Reaches-Advances t u rest)

final_stays :
    (x y : SettlementStatus)
    → x ≡ SettlementStatus.rejected ⊎ x ≡ SettlementStatus.reversed
    → Steps x y
    → y ≡ x
final_stays x y h (stays _) = refl
final_stays x y h (after _ _ _ approves ps) = absurd (ground arith)
final_stays x y h (after _ _ _ rejects_pending ps) = absurd (ground arith)
final_stays x y h (after _ _ _ rejects_approved ps) = absurd (ground arith)
final_stays x y h (after _ _ _ pays ps) = absurd (ground arith)
final_stays x y h (after _ _ _ reverses ps) = absurd (ground arith)

-- A settlement that is rejected or reversed is so in every state that committed requests lead to: it
-- is never paid, whatever becomes of a cheque for it.
pub rejected_stays :
    (s t : Store) (id : ℕ) (x : RepSettlement)
    → Reaches s t
    → lookup id s.rep_settlements ≡ some x
    → x.status ≡ SettlementStatus.rejected ⊎ x.status ≡ SettlementStatus.reversed
    → (y : RepSettlement) × (lookup id t.rep_settlements ≡ some y) × (y.status ≡ x.status)
rejected_stays s t id x reached found closed =
    let (y, there, next_) = Reaches-Advances s t reached id x found in
    (y, there, final_stays x.status y.status closed next_.steps)
