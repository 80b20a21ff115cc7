-- ===== src/Settlements/Owed.antt =====
-- Settlements never pay a supplier more than they are owed.
use electro_mart_backend.Prelude.{
  arith, ◌≢◌, ◌+◌, ◌≤◌, ◌∷◌, ==→eq, is_some, ℕ, ◌≡◌, refl, true, not, ◌&&◌, List, Option, none,
  some, ◌==◌, if◌then◌else◌, Bool-cases, ==_refl, inl, inr,
}
use electro_mart_backend.Result.{ok}
use electro_mart_backend.Refunds.Changes.{record_ledger_revision}
use electro_mart_backend.Prelude.Int.{pos, ◌+ℤ◌, ◌-ℤ◌, ◌≤ℤ◌, gtb_ℤ, int_laws}
use electro_mart_backend.Cheques.{ChequeKind, assert_cheque_transition, ChequeStatus}
use electro_mart_backend.Rows.{LedgerEntity, LedgerAction, SupplierPayment, LedgerRevision}
use electro_mart_backend.Table.{lookup-delete_ne, lookup, insert, update}
use electro_mart_backend.Table.Predicates.{AllRows, AllRows-lookup}
use electro_mart_backend.Store.{recorded_settlement, Store, Env, Activity, log}
use electro_mart_backend.Store.After.{After, lift-After, or_throw-After, guard-After, done}
use electro_mart_backend.Invoicing.{is_returned}
use electro_mart_backend.Settlements.{
  day_ms, SettlementForm, new_settlement, create_settlement, update_settlement_status,
  delete_settlement, restamped_settlement, assert_still_owed,
}
use electro_mart_backend.Settlements.Settled.{
  settled_live, settled_le, settled_nonneg, owed-insert, settled_other, settled_at,
  new_settlement-settled_at, owed-delete, owed-update, owed,
}

recorded-owed :
    (id supplier_id k now : ℕ) (form : SettlementForm) (s : Store) (history : List LedgerRevision)
    (acts : List (Activity × ℕ))
    → owed id (record s {
      supplier_payments = insert k (new_settlement form supplier_id now) s.supplier_payments;
      ledger_revisions = history;
      activities = acts;
    })
      ≡ owed id s -ℤ (if supplier_id == id then form.amount else pos 0)
recorded-owed id supplier_id k now form s history acts =
    rw (← new_settlement-settled_at id form supplier_id now)
      (owed-insert id k (new_settlement form supplier_id now) s history acts)

-- A settlement that `createSettlement` records takes its amount off what its supplier is owed and
-- nothing off what another is owed, and that supplier is not overpaid: what they are owed stays zero
-- or more.
pub create_settlement-owed :
    (supplier_id : ℕ) (form : SettlementForm) (env : Env) (s : Store)
    → After (create_settlement supplier_id form env s) (λ _ t.
      (pos 0 ≤ℤ owed supplier_id t)
      × ((id : ℕ) → owed id t ≡ owed id s -ℤ (if supplier_id == id then form.amount else pos 0)))
unfolding create_settlement log
create_settlement-owed supplier_id form env s = or_throw-After _ _ s _ (λ _ _.
    guard-After _ _ s _ (λ _. lift-After _ s _ (λ _ _. guard-After _ _ s _ (λ _.
      guard-After _ _ s _ (λ within.
        let effect = λ (id : ℕ).
          recorded-owed id supplier_id env.new_id env.now form s s.ledger_revisions
            ((recorded_settlement, env.new_id) ∷ s.activities) in
        done (grind (int_laws, within, ==_refl supplier_id, effect supplier_id), effect))))))

-- What a row takes off before it is stamped, and after.
restamped_covered :
    (id now : ℕ) (status : ChequeStatus) (p : SupplierPayment) (s : Store)
    → pos 0 ≤ℤ p.amount
    → is_some p.cheque_status ≡ true
    → not (is_returned p.cheque_status && gtb_ℤ p.amount (owed p.supplier_id s)) ≡ true
    → pos 0 ≤ℤ owed id s
    → settled_at id (restamped_settlement p status now) ≤ℤ owed id s +ℤ settled_at id p
unfolding restamped_settlement
restamped_covered id now status p s positive stamped covered owes =
    let new = restamped_settlement p status now in
    elim (Bool-cases (p.supplier_id == id)) [
      | inr differ ↦ grind (int_laws, settled_other id p differ, settled_other id new differ, owes)
      | inl same ↦ elim (Bool-cases (is_returned p.cheque_status)) [
        | inl back ↦ grind (
          int_laws,
          settled_le id new positive,
          settled_nonneg id p positive,
          covered,
          back,
          ==→eq p.supplier_id id same,
        )
        | inr live ↦
            grind (int_laws, settled_le id new positive, settled_live id p same stamped live, owes)
      ]
    ]

restamped-owed :
    (id k now : ℕ) (status : ChequeStatus) (p : SupplierPayment) (s : Store)
    (history : List LedgerRevision) (acts : List (Activity × ℕ))
    → lookup k s.supplier_payments ≡ some p
    → pos 0 ≤ℤ p.amount
    → is_some p.cheque_status ≡ true
    → not (is_returned p.cheque_status && gtb_ℤ p.amount (owed p.supplier_id s)) ≡ true
    → pos 0 ≤ℤ owed id s
    → pos 0
      ≤ℤ owed id (record s {
        supplier_payments = update k (restamped_settlement p status now) s.supplier_payments;
        ledger_revisions = history;
        activities = acts;
      })
restamped-owed id k now status p s history acts found positive stamped covered owes = grind (
  int_laws,
  owed-update id k (restamped_settlement p status now) p s history acts found,
  restamped_covered id now status p s positive stamped covered owes,
)

-- A cheque that changes its status has one.
legal-is_some :
    (kind : ChequeKind) (from : Option ChequeStatus) (to : ChequeStatus) (at : Option ℕ) (now : ℕ)
    → {u : Unit {0}} → assert_cheque_transition kind from to at now ≡ ok u
    → is_some from ≡ true
unfolding assert_cheque_transition
legal-is_some kind none to at now e = cc
legal-is_some kind (some from) to at now e = refl

-- A change of a settlement cheque's status leaves what each supplier is owed at zero or more where it
-- was, if no recorded settlement has a negative amount: a returned cheque counts again only while
-- that much is still owed.
pub update_settlement_status-owed :
    (k : ℕ) (status : ChequeStatus) (env : Env) (s : Store)
    → AllRows (λ _ p. pos 0 ≤ℤ p.amount) s.supplier_payments
    → After
        (update_settlement_status k status env s)
        (λ _ t. (id : ℕ) → pos 0 ≤ℤ owed id s → pos 0 ≤ℤ owed id t)
unfolding update_settlement_status log assert_still_owed record_ledger_revision
update_settlement_status-owed k status env s positive = or_throw-After _ _ s _ (λ existing found.
    guard-After _ _ s _ (λ cheque. or_throw-After _ _ s _ (λ p again. lift-After _ s _ (λ _ legal.
      guard-After _ _ s _ (λ covered. guard-After _ _ _ _ (λ _. done (λ id owes.
        restamped-owed id k env.now status p s
          (record {
            entity = LedgerEntity.supplier_payment;
            entity_id = k;
            action = LedgerAction.cheque_status;
          }
            ∷ s.ledger_revisions)
          ((Activity.updated_cheque_status, k) ∷ s.activities) again
          (AllRows-lookup _ k p s.supplier_payments positive again)
          (legal-is_some _ p.cheque_status status _ _ legal) covered owes)))))))

-- A settlement that is deleted was recorded a day ago at most; each supplier is owed again exactly
-- what its row took off, if it counted, and every other settlement stays as it was.
pub delete_settlement-owed :
    (k : ℕ) (env : Env) (s : Store)
    → After (delete_settlement k env s) (λ _ t.
      (p : SupplierPayment) × (lookup k s.supplier_payments ≡ some p)
      × (env.now ≤ p.created_at + day_ms)
      × ((id : ℕ) → owed id t ≡ owed id s +ℤ settled_at id p)
      × ((j : ℕ) → j ≢ k → lookup j t.supplier_payments ≡ lookup j s.supplier_payments))
unfolding delete_settlement log record_ledger_revision
delete_settlement-owed k env s = or_throw-After _ _ s _ (λ p found. guard-After _ _ s _ (λ recent.
    done (
      p,
      found,
      (ground arith),
      (λ id. owed-delete id k p s _ _ found),
      (λ j other. lookup-delete_ne j k s.supplier_payments other),
    )))
