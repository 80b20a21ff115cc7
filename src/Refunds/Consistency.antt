-- ===== src/Refunds/Consistency.antt =====
-- Every operation of RefundsService keeps the ledger balanced.
use electro_mart_backend.Prelude.{
  List, is_some, if◌then◌else◌, arith, inr, inl, Bool-cases, ℕ, ◌≡◌, refl, Bool, true, false,
  Option, none, some,
}
use electro_mart_backend.Rows.{LedgerRevision, LedgerAction, LedgerEntity, Refund, RefundParty}
use electro_mart_backend.Store.{
  recorded_refund, increment_balance, pure, M, ◌>>◌, Activity, Store, Env, log,
}
use electro_mart_backend.Store.After.{
  After, next-After, lift-After, or_throw-After, guard-After, read-After, done,
}
use electro_mart_backend.Ledger.{IsBalanced}
use electro_mart_backend.Refunds.Form.{
  is_effective_refund, RefundForm, edited_refund, new_refund, effective_amount,
}
use electro_mart_backend.Refunds.Changes.{
  put_refund, create, edit, update_cheque_status, cancel, restore, settle_refund, restamped_refund,
  cancelled_refund, record_ledger_revision,
}
use electro_mart_backend.Refunds.Balance.{
  update-IsOff, change-IsBalanced, insert-nobody-IsBalanced, insert-owned-IsBalanced,
  balancing-After,
}
use electro_mart_backend.Prelude.Int.{int_laws, neg_ℤ, ◌-ℤ◌, pos, ℤ}
use electro_mart_backend.Table.{insert, update, lookup}
use electro_mart_backend.Cheques.{is_cheque, ChequeStatus}
use electro_mart_backend.Refunds.Reads.{covers-Reads, party-Reads, purchase-Reads, increase-Reads}

-- The writing end of every change of a row.
settling-After :
    (entity : LedgerEntity) (action : LedgerAction) (id : ℕ) (r new : Refund) (delta : ℤ)
    (kind : Activity) (s : Store)
    → lookup id s.refunds ≡ some r
    → new.dealer_id ≡ r.dealer_id
    → delta ≡ effective_amount new -ℤ effective_amount r
    → IsBalanced s
    → After
        ((do
          record_ledger_revision entity id action
          put_refund id new
          settle_refund r.dealer_id delta
          log kind id)
          s)
        (λ _ t. IsBalanced t)
unfolding record_ledger_revision log
settling-After entity action id r new delta kind s found own z b =
    next-After (change-IsBalanced r.dealer_id id r new delta s _ found refl own z b)
      (λ _ t still. done still)

pub edit-IsBalanced :
    (id : ℕ) (form : RefundForm) (env : Env) (s : Store)
    → IsBalanced s
    → After (edit id form env s) (λ _ t. IsBalanced t)
unfolding edit edited_refund record_ledger_revision log
edit-IsBalanced id form env s b = lift-After _ s _ (λ _ _. lift-After _ s _ (λ _ _.
    or_throw-After _ _ s _ (λ r found. guard-After _ _ s _ (λ _.
      read-After _ (party-Reads _ _ s) (λ _ _. guard-After _ _ s _ (λ _.
        read-After _ (purchase-Reads _ _ s) (λ purchase_id _.
          read-After _ (increase-Reads _ _ s) (λ _ _.
            settling-After _ _ id r (edited_refund form purchase_id r env.now) _ _ s found refl refl
              b))))))))

pub update_cheque_status-IsBalanced :
    (id : ℕ) (status : ChequeStatus) (env : Env) (s : Store)
    → IsBalanced s
    → After (update_cheque_status id status env s) (λ _ t. IsBalanced t)
unfolding update_cheque_status restamped_refund record_ledger_revision log
update_cheque_status-IsBalanced id status env s b = or_throw-After _ _ s _ (λ r found.
    guard-After _ _ s _ (λ _. guard-After _ _ s _ (λ _. lift-After _ s _ (λ _ _.
      read-After _ (party-Reads _ _ s) (λ _ _. read-After _ (increase-Reads _ _ s) (λ _ _.
        settling-After _ _ id r (restamped_refund r status env.now) _ _ s found refl refl b))))))

-- A cancelled refund counts for nothing, and a live one for its effective amount.
cancelled-effective_amount :
    (r : Refund) (at : ℕ) → effective_amount (cancelled_refund r (some at)) ≡ pos 0
unfolding effective_amount cancelled_refund is_effective_refund
cancelled-effective_amount r at = ground arith

rolled_amount :
    (r : Refund)
    → is_some r.cancelled_at ≡ true
    → effective_amount (cancelled_refund r none)
      ≡ effective_amount (cancelled_refund r none) -ℤ effective_amount r
unfolding effective_amount is_effective_refund cancelled_refund
rolled_amount r gone = grind (int_laws, gone)

pub restore-IsBalanced :
    (id : ℕ) (env : Env) (s : Store) → IsBalanced s → After (restore id env s) (λ _ t. IsBalanced t)
unfolding restore cancelled_refund record_ledger_revision log
restore-IsBalanced id env s b = or_throw-After _ _ s _ (λ r found. guard-After _ _ s _ (λ gone.
    read-After _ (party-Reads _ _ s) (λ _ _. read-After _ (increase-Reads _ _ s) (λ _ _.
      settling-After _ _ id r (cancelled_refund r none) _ _ s found refl (rolled_amount r gone)
        b))))

withdrawn_amount :
    (r : Refund) (at : ℕ)
    → is_effective_refund r ≡ true
    → neg_ℤ r.amount ≡ effective_amount (cancelled_refund r (some at)) -ℤ effective_amount r
unfolding effective_amount cancelled_refund is_effective_refund
withdrawn_amount r at counts = grind (int_laws, counts)

nothing_withdrawn :
    (r : Refund) (at : ℕ)
    → is_effective_refund r ≡ false
    → pos 0 ≡ effective_amount (cancelled_refund r (some at)) -ℤ effective_amount r
unfolding effective_amount cancelled_refund is_effective_refund
nothing_withdrawn r at idle = grind (int_laws, idle)

-- What `cancel` does with the dealer's balance, once the row is cancelled.
abbrev withdraw : Refund → M (Unit {0})
withdraw r =
    if is_effective_refund r
    then (elim r.dealer_id [ none ↦ pure tt | some d ↦ increment_balance d (neg_ℤ r.amount) ])
    else pure tt

counted_withdraw-After :
    (party : Option ℕ) (id at : ℕ) (r : Refund) (s : Store) (history : List LedgerRevision)
    → lookup id s.refunds ≡ some r
    → r.dealer_id ≡ party
    → is_effective_refund r ≡ true
    → IsBalanced s
    → After
        ((elim party as (λ _. M (Unit {0})) [
          | none ↦ pure tt
          | some d ↦ increment_balance d (neg_ℤ r.amount)
        ])
          (record s {
            refunds = update id (cancelled_refund r (some at)) s.refunds;
            ledger_revisions = history;
          }))
        (λ _ t. IsBalanced t)
unfolding cancelled_refund settle_refund
counted_withdraw-After none id at r s history found own counts b =
    change-IsBalanced none id r (cancelled_refund r (some at)) (neg_ℤ r.amount) s history found own
      own (withdrawn_amount r at counts) b
counted_withdraw-After (some d) id at r s history found own counts b =
    balancing-After d (effective_amount r -ℤ effective_amount (cancelled_refund r (some at))) _ _
      (update-IsOff d id (cancelled_refund r (some at)) r (record s { ledger_revisions = history })
        found own own b)
      (grind (int_laws, withdrawn_amount r at counts))

idle_withdraw-After :
    (party : Option ℕ) (id at : ℕ) (r : Refund) (s : Store) (history : List LedgerRevision)
    → lookup id s.refunds ≡ some r
    → r.dealer_id ≡ party
    → is_effective_refund r ≡ false
    → IsBalanced s
    → After
        (pure tt (record s {
          refunds = update id (cancelled_refund r (some at)) s.refunds;
          ledger_revisions = history;
        }))
        (λ _ t. IsBalanced t)
unfolding cancelled_refund settle_refund
idle_withdraw-After none id at r s history found own idle b =
    change-IsBalanced none id r (cancelled_refund r (some at)) (pos 0) s history found own own
      (nothing_withdrawn r at idle) b
idle_withdraw-After (some d) id at r s history found own idle b =
    change-IsBalanced (some d) id r (cancelled_refund r (some at)) (pos 0) s history found own own
      (nothing_withdrawn r at idle) b

withdraw-After :
    (id at : ℕ) (r : Refund) (s : Store) (history : List LedgerRevision)
    → lookup id s.refunds ≡ some r
    → IsBalanced s
    → After
        (withdraw r (record s {
          refunds = update id (cancelled_refund r (some at)) s.refunds;
          ledger_revisions = history;
        }))
        (λ _ t. IsBalanced t)
withdraw-After id at r s history found b = elim (Bool-cases (is_effective_refund r)) [
  | inl counts ↦
      rw counts (counted_withdraw-After r.dealer_id id at r s history found refl counts b)
  | inr idle ↦ rw idle (idle_withdraw-After r.dealer_id id at r s history found refl idle b)
]

pub cancel-IsBalanced :
    (id : ℕ) (env : Env) (s : Store) → IsBalanced s → After (cancel id env s) (λ _ t. IsBalanced t)
unfolding cancel record_ledger_revision log
cancel-IsBalanced id env s b = or_throw-After _ _ s _ (λ r found. guard-After _ _ s _ (λ live.
    read-After _ (party-Reads _ _ s)
      (λ _ _. next-After (withdraw-After id env.now r s _ found b) (λ _ t still. done still))))

new_refund-effective_amount :
    (form : RefundForm) (party : RefundParty) (dealer_id supplier_id purchase_id : Option ℕ)
    (now : ℕ)
    → effective_amount (new_refund form party dealer_id supplier_id purchase_id now) ≡ form.amount
unfolding effective_amount new_refund is_effective_refund
new_refund-effective_amount form party dealer_id supplier_id purchase_id now =
    elim (Bool-cases (is_cheque form.mode)) [
      | inl cheque ↦ rw (cheque, if◌then◌else◌) refl
      | inr other ↦ rw (other, if◌then◌else◌) refl
    ]

-- What `create` does with the dealer's balance, once the row is written.
recorded-After :
    (party : Option ℕ) (k : ℕ) (r : Refund) (amount : ℤ) (s : Store)
    → r.dealer_id ≡ party
    → effective_amount r ≡ amount
    → IsBalanced s
    → After
        ((elim party as (λ _. M (Unit {0})) [
          | none ↦ pure tt
          | some d ↦ increment_balance d amount
        ])
          (record s { refunds = insert k r s.refunds }))
        (λ _ t. IsBalanced t)
recorded-After none k r amount s own e b = done (insert-nobody-IsBalanced k r s own b)
recorded-After (some d) k r amount s own e b = rw (← e) (insert-owned-IsBalanced d k r s own b)

pub create-IsBalanced :
    (form : RefundForm) (party : RefundParty) (dealer_id supplier_id : Option ℕ) (confirm : Bool)
    (env : Env) (s : Store)
    → IsBalanced s
    → After (create form party dealer_id supplier_id confirm env s) (λ _ t. IsBalanced t)
unfolding create new_refund log
create-IsBalanced form party dealer_id supplier_id confirm env s b = lift-After _ s _ (λ _ _.
    lift-After _ s _ (λ _ _. guard-After _ _ s _ (λ _. read-After _ (party-Reads _ _ s) (λ _ _.
      read-After _ (purchase-Reads _ _ s) (λ purchase_id _. guard-After _ _ s _ (λ _.
        read-After _ (covers-Reads _ _ _ s) (λ _ _.
          next-After {f = λ _. log recorded_refund env.new_id}
            (recorded-After _ env.new_id (new_refund form party _ _ purchase_id env.now) _ s refl
              (new_refund-effective_amount form party _ _ _ _) b)
            (λ _ t still. done still))))))))
