-- ===== src/Commission/Allotted.antt =====
-- Every settlement request leaves the lines where they may be.
use electro_mart_backend.Prelude.{
  inl, inr, Bool-cases, ==_refl, refl, none, arith, false, ◌||◌, true, same_id, some, ◌≡◌, Option,
  ℕ,
}
use electro_mart_backend.Commission.Lines.{
  settled_line, lines_unchanged, same_line_status, detached, claimed, released,
  same_settlement_status, is_line_of, is_line_in,
}
use electro_mart_backend.Rows.Commission.{
  SettlementStatus, CommissionLine, RepSettlement, LineStatus,
}
use electro_mart_backend.Commission.Settlements.{
  set_batch_cheque, pay_batch, reverse_batch, reject_batch, approve_batch, create_batch,
  SettlementRequest, restamped_settlement, handle_batch, update_cheque_status, PayForm,
  paid_settlement, payment_recorded, reversed_settlement, reverse_payment,
  create_settlement_expense, pay, rejected_settlement, new_settlement, approved_settlement, reject,
  approve, create,
}
use electro_mart_backend.Table.{insert, lookup-update, update, lookup, Table}
use electro_mart_backend.Store.{pure, Store, Env, log}
use electro_mart_backend.Commission.Allotment.{
  other_allotted, insert_allotted, put_allotted, own_allotted, IsAllotted, AreAllotted,
  is_allotted_to, goes_with,
}
use electro_mart_backend.Table.Predicates.{
  AllRows-both, AllRows-kept, AllRows, AllRows-update_where, AllRows-mono,
}
use electro_mart_backend.Store.After.{
  if_After, next-After, read-After, lift-After, done, guard-After, or_throw-After, After,
}
use electro_mart_backend.Commission.Progress.{status_of_check}
use electro_mart_backend.Commission.Reads.{when_cleared-Reads, check_lines-Reads}
use electro_mart_backend.Cheques.{cleared, same_status, ChequeStatus, is_cheque}

-- A line of a settlement that is written anew.
now_allotted :
    (ts : Table RepSettlement) (id : ℕ) (old new : RepSettlement) (status : LineStatus)
    (owner : Option ℕ)
    → lookup id ts ≡ some old
    → same_id owner (some id) ≡ true
    → goes_with status new.status ≡ true
    → is_allotted_to (update id new ts) status owner ≡ true
now_allotted ts id old new status none found own fits = absurd (ground arith)
now_allotted ts id old new status (some i) found own fits =
    rw (lookup-update i id new old ts found, own) fits

put-AreAllotted :
    (ts : Table RepSettlement) (id : ℕ) (old new : RepSettlement) (lines : Table CommissionLine)
    → lookup id ts ≡ some old
    → ((status : LineStatus)
        → goes_with status old.status ≡ true
        → goes_with status new.status ≡ true)
    → AreAllotted ts lines
    → AreAllotted (update id new ts) lines
put-AreAllotted ts id old new lines found fits allotted =
    AllRows-mono _ _ lines allotted
      (λ _ l here. put_allotted ts id old new l.status l.settlement_id found (fits l.status) here)

approving :
    (status : LineStatus)
    → goes_with status SettlementStatus.pending ≡ true
    → goes_with status SettlementStatus.approved ≡ true
approving LineStatus.pending h = h
approving LineStatus.approved h = refl
approving LineStatus.settled h = h
approving LineStatus.reversed h = refl

approve-IsAllotted :
    (id : ℕ) (env : Env) (s : Store) → IsAllotted s → After (approve id env s) (λ _ t. IsAllotted t)
unfolding approve log approved_settlement
approve-IsAllotted id env s allotted = or_throw-After _ _ s _ (λ t found.
    guard-After _ _ s _ (λ open_. done (
      put-AreAllotted s.rep_settlements id t (approved_settlement t env.now) s.commission_lines
        found
        (λ status h.
          approving status (rw (status_of_check t.status SettlementStatus.pending open_) at h))
        allotted)))

create-IsAllotted :
    (representative from to : ℕ) (env : Env) (s : Store)
    → lookup env.new_id s.rep_settlements ≡ none
    → IsAllotted s
    → After (create representative from to env s) (λ _ t. IsAllotted t)
unfolding create log new_settlement claimed insert lookup
create-IsAllotted representative from to env s fresh allotted = or_throw-After _ _ s _ (λ _ _.
    guard-After _ _ s _ (λ _. guard-After _ _ s _ (λ _. guard-After _ _ _ _ (λ _. done (
      AllRows-update_where _ _ _ _ s.commission_lines allotted
        (λ _ l here mine. rw (==_refl env.new_id) refl)
        (λ _ l here other.
          insert_allotted s.rep_settlements env.new_id _ l.status l.settlement_id fresh here))))))

-- A line of a settlement under way is approved or reversed.
unapproved :
    (x : LineStatus) (y : SettlementStatus)
    → goes_with x y ≡ true
    → same_settlement_status y SettlementStatus.pending
        || same_settlement_status y SettlementStatus.approved
      ≡ true
    → same_line_status x LineStatus.approved ≡ false
    → x ≡ LineStatus.reversed
unapproved LineStatus.reversed y fits open_ out = refl
unapproved LineStatus.approved y fits open_ out = absurd (ground arith)
unapproved LineStatus.pending y fits open_ out = absurd (ground arith)
unapproved LineStatus.settled y fits open_ out = absurd (ground arith)

-- The lines of a settlement that is rejected, once the approved ones are released.
rejecting_line :
    (ts : Table RepSettlement) (id : ℕ) (t : RepSettlement) (l : CommissionLine)
    → lookup id ts ≡ some t
    → same_settlement_status t.status SettlementStatus.pending
        || same_settlement_status t.status SettlementStatus.approved
      ≡ true
    → is_allotted_to ts l.status l.settlement_id ≡ true
    → is_line_in id LineStatus.approved l ≡ false
    → (is_line_of id l ≡ true → l.status ≡ LineStatus.reversed)
      × (is_line_of id l ≡ false
          → is_allotted_to (update id (rejected_settlement t) ts) l.status l.settlement_id ≡ true)
unfolding is_line_in is_line_of
rejecting_line ts id t l found open_ here out = (
  (λ own.
      let fits = own_allotted ts id t l.status l.settlement_id found own here in
      unapproved l.status t.status fits open_ (rw own at out)),
  (λ other.
      other_allotted ts id t (rejected_settlement t) l.status l.settlement_id found other here),
)

reject-IsAllotted : (id : ℕ) (s : Store) → IsAllotted s → After (reject id s) (λ _ t. IsAllotted t)
unfolding reject log released detached is_line_of
reject-IsAllotted id s allotted = or_throw-After _ _ s _ (λ t found. guard-After _ _ s _ (λ open_.
    guard-After _ _ s _ (λ _.
      let ts = update id (rejected_settlement t) s.rep_settlements in
      let freed =
        AllRows-update_where _
          (λ _ l.
            (is_line_of id l ≡ true → l.status ≡ LineStatus.reversed)
            × (is_line_of id l ≡ false → is_allotted_to ts l.status l.settlement_id ≡ true))
          (λ _ l. is_line_in id LineStatus.approved l) released s.commission_lines allotted
          (λ _ l here approved_. ((λ own. absurd (ground arith)), (λ other. refl)))
          (λ _ l here out. rejecting_line s.rep_settlements id t l found open_ here out) in
      done (
        AllRows-update_where _ _ _ _ _ freed (λ _ l here own. rw (here.0 own) refl)
          (λ _ l here other. here.1 other)))))

-- The lines of a settlement that is paid: all of them are approved, and then settled.
create_settlement_expense-IsAllotted :
    (id : ℕ) (env : Env) (s : Store)
    → AllRows
        (λ _ l. is_line_of id l ≡ true → same_line_status l.status LineStatus.approved ≡ true)
        s.commission_lines
    → IsAllotted s
    → After (create_settlement_expense id env s) (λ _ t. IsAllotted t)
unfolding create_settlement_expense paid_settlement settled_line is_line_in is_line_of
create_settlement_expense-IsAllotted id env s payable allotted = or_throw-After _ _ s _ (λ t found.
    or_throw-After _ _ s _ (λ _ _. guard-After _ _ _ _ (λ open_. done (
      AllRows-update_where _ _ _ _ s.commission_lines
        (AllRows-both _ _ s.commission_lines allotted payable)
        (λ _ l here mine.
          now_allotted s.rep_settlements id t (paid_settlement t env.new_id env.now)
            LineStatus.settled l.settlement_id found (ground arith) refl)
        (λ _ l here other.
          other_allotted s.rep_settlements id t (paid_settlement t env.new_id env.now) l.status
            l.settlement_id found (ground (arith, here.1)) here.0)))))

unsettled : (x : LineStatus) → goes_with x SettlementStatus.paid ≡ true → x ≡ LineStatus.settled
unsettled LineStatus.settled h = refl
unsettled LineStatus.approved h = absurd (ground arith)
unsettled LineStatus.pending h = absurd (ground arith)
unsettled LineStatus.reversed h = absurd (ground arith)

-- A line that is not among the settled ones of a paid settlement is not in it.
unpaid_line :
    (ts : Table RepSettlement) (id : ℕ) (t : RepSettlement) (l : CommissionLine)
    → lookup id ts ≡ some t
    → same_settlement_status t.status SettlementStatus.paid ≡ true
    → is_allotted_to ts l.status l.settlement_id ≡ true
    → is_line_in id LineStatus.settled l ≡ false
    → same_id l.settlement_id (some id) ≡ false
unfolding is_line_in is_line_of
unpaid_line ts id t l found closed here other =
    elim (Bool-cases (same_id l.settlement_id (some id))) [
      | inr out ↦ out
      | inl own ↦
          let fits = own_allotted ts id t l.status l.settlement_id found own here in
          let paid_ = status_of_check t.status SettlementStatus.paid closed in
          let done_ = unsettled l.status (rw paid_ at fits) in
          absurd (let open_ = rw (own, done_) at other in cc)
    ]

reverse_payment-IsAllotted :
    (id : ℕ) (env : Env) (s : Store)
    → IsAllotted s
    → After (reverse_payment id env s) (λ _ t. IsAllotted t)
unfolding reverse_payment log reversed_settlement released is_line_in is_line_of
reverse_payment-IsAllotted id env s allotted = or_throw-After _ _ s _ (λ t found.
    guard-After _ _ s _ (λ closed. done (
      AllRows-update_where _ _ _ _ s.commission_lines allotted (λ _ l here mine. refl)
        (λ _ l here other.
          other_allotted s.rep_settlements id t (reversed_settlement t env.now) l.status
            l.settlement_id found
            (unpaid_line s.rep_settlements id t l found (ground arith) here other) here))))

-- Lines that pass `assertLinesUnchanged` are all payable.
payable_lines :
    (id : ℕ) (t : RepSettlement) (s : Store)
    → lines_unchanged id t s ≡ true
    → AllRows
        (λ _ l. is_line_of id l ≡ true → same_line_status l.status LineStatus.approved ≡ true)
        s.commission_lines
unfolding lines_unchanged
payable_lines id t s h =
    AllRows-kept (λ _ l. is_line_of id l) (λ l. same_line_status l.status LineStatus.approved)
      s.commission_lines (ground arith)

pay-IsAllotted :
    (id : ℕ) (form : PayForm) (env : Env) (s : Store)
    → IsAllotted s
    → After (pay id form env s) (λ _ t. IsAllotted t)
unfolding pay log payment_recorded
pay-IsAllotted id form env s allotted = or_throw-After _ _ s _ (λ t found. lift-After _ s _ (λ _ _.
    guard-After _ _ s _ (λ _. guard-After _ _ s _ (λ _.
      read-After _ (check_lines-Reads id t s) (λ _ unchanged.
        let kept =
          put-AreAllotted s.rep_settlements id t (payment_recorded t form) s.commission_lines found
            (λ _ h. h) allotted in
        next-After
          (if_After (is_cheque form.mode) (pure tt) (create_settlement_expense id env) _
            (λ _. done kept)
            (λ _.
              create_settlement_expense-IsAllotted id env _ (payable_lines id t s unchanged) kept))
          (λ _ _ still. done still))))))

update_cheque_status-IsAllotted :
    (id : ℕ) (status : ChequeStatus) (env : Env) (s : Store)
    → IsAllotted s
    → After (update_cheque_status id status env s) (λ _ t. IsAllotted t)
unfolding update_cheque_status log restamped_settlement
update_cheque_status-IsAllotted id status env s allotted = or_throw-After _ _ s _ (λ t found.
    guard-After _ _ s _ (λ _. guard-After _ _ s _ (λ _. lift-After _ s _ (λ _ _.
      read-After _ (when_cleared-Reads status id t s) (λ _ unchanged.
        let kept =
          put-AreAllotted s.rep_settlements id t (restamped_settlement t status) s.commission_lines
            found (λ _ h. h) allotted in
        next-After
          (if_After (same_status status cleared) (create_settlement_expense id env) (pure tt) _
            (λ clears.
              create_settlement_expense-IsAllotted id env _
                (payable_lines id t s (unchanged clears)) kept)
            (λ _. done kept))
          (λ _ _ still. done still))))))

-- A settlement request that commits leaves every ledger line where its status says, if it was so
-- before, and if the id of a new settlement is new: an approved line is in a settlement that is
-- pending or approved, a settled one in one that is paid, a pending one in none, and a reversed one in
-- none or in one that is not yet paid. So no line is paid twice, and a settlement that is rejected or
-- reversed holds no line.
pub handle_batch-IsAllotted :
    (q : SettlementRequest) (env : Env) (s : Store)
    → lookup env.new_id s.rep_settlements ≡ none
    → IsAllotted s
    → After (handle_batch q env s) (λ _ t. IsAllotted t)
unfolding handle_batch
handle_batch-IsAllotted (create_batch representative from to) env s fresh allotted =
    create-IsAllotted representative from to env s fresh allotted
handle_batch-IsAllotted (approve_batch id) env s fresh allotted =
    approve-IsAllotted id env s allotted
handle_batch-IsAllotted (reject_batch id) env s fresh allotted = reject-IsAllotted id s allotted
handle_batch-IsAllotted (reverse_batch id) env s fresh allotted =
    reverse_payment-IsAllotted id env s allotted
handle_batch-IsAllotted (pay_batch id form) env s fresh allotted =
    pay-IsAllotted id form env s allotted
handle_batch-IsAllotted (set_batch_cheque id status) env s fresh allotted =
    update_cheque_status-IsAllotted id status env s allotted
