-- ===== src/Refunds/Balance.antt =====
-- Every change of a refund keeps the accounting contract of the ledger.
use electro_mart_backend.Prelude.{
  ◌∙◌, ℕ, ◌≡◌, false, Option, none, some, List, arith, ◌==◌, same_id, if◌then◌else◌, Bool-cases,
  inl, inr,
}
use electro_mart_backend.Prelude.Int.{ℤ, pos, ◌+ℤ◌, ◌-ℤ◌, eqb_ℤ, int_laws}
use electro_mart_backend.Rows.{Refund, LedgerRevision}
use electro_mart_backend.Table.{Table, lookup, insert, update}
use electro_mart_backend.Table.Sums.{total-update, total-insert}
use electro_mart_backend.Store.{Store, increment_balance}
use electro_mart_backend.Store.After.{After, After-mono, done}
use electro_mart_backend.Ledger.{counted_refunds, IsBalanced}
use electro_mart_backend.Ledger.Offsets.{IsOff, IsOff-IsBalanced, increment-IsOff}
use electro_mart_backend.Refunds.Form.{effective_amount}
use electro_mart_backend.Refunds.Changes.{settle_refund}
use electro_mart_backend.Invoicing.{is_effective_payment}

-- What a row adds to the refunds counted for `d`.
credit_at : ℕ → Refund → ℤ
unfolding effective_amount
credit_at d r = if same_id r.dealer_id (some d) then effective_amount r else pos 0

counted-insert :
    (d k : ℕ) (r : Refund) (t : Table Refund)
    → counted_refunds d (insert k r t) ≡ counted_refunds d t +ℤ credit_at d r
unfolding counted_refunds credit_at is_effective_payment
counted-insert d k r t = total-insert _ k r t ∙ ground arith

counted-update :
    (d k : ℕ) (r old : Refund) (t : Table Refund)
    → lookup k t ≡ some old
    → counted_refunds d (update k r t) ≡ counted_refunds d t -ℤ credit_at d old +ℤ credit_at d r
unfolding counted_refunds credit_at is_effective_payment
counted-update d k r old t e = total-update _ k r old t e ∙ ground arith

nobody-credit_at : (d : ℕ) (r : Refund) → r.dealer_id ≡ none → credit_at d r ≡ pos 0
unfolding credit_at
nobody-credit_at d r e = rw e

credit_at_own : (d : ℕ) (r : Refund) → r.dealer_id ≡ some d → credit_at d r ≡ effective_amount r
unfolding credit_at
credit_at_own d r e = ground arith

credit_at_other :
    (d d0 : ℕ) (r : Refund) → r.dealer_id ≡ some d0 → (d == d0) ≡ false → credit_at d r ≡ pos 0
unfolding credit_at
credit_at_other d d0 r e ne = ground arith

pub update-IsOff :
    (d0 k : ℕ) (r old : Refund) (s : Store)
    → lookup k s.refunds ≡ some old
    → old.dealer_id ≡ some d0
    → r.dealer_id ≡ some d0
    → IsBalanced s
    → IsOff d0
        (effective_amount old -ℤ effective_amount r)
        (record s { refunds = update k r s.refunds })
update-IsOff d0 k r old s found own_old own b d row e =
    let counted = counted-update d k r old s.refunds found in
    elim (Bool-cases (d == d0)) [
      | inl same ↦ grind (int_laws, b d row e, counted, credit_at_own d r, credit_at_own d old)
      | inr differ ↦ grind (
        int_laws,
        b d row e,
        counted,
        credit_at_other d d0 r own differ,
        credit_at_other d d0 old own_old differ,
      )
    ]

insert-IsOff :
    (d0 k : ℕ) (r : Refund) (s : Store)
    → r.dealer_id ≡ some d0
    → IsBalanced s
    → IsOff d0 (pos 0 -ℤ effective_amount r) (record s { refunds = insert k r s.refunds })
insert-IsOff d0 k r s own b d row e =
    let counted = counted-insert d k r s.refunds in
    elim (Bool-cases (d == d0)) [
      | inl same ↦ grind (int_laws, b d row e, counted, credit_at_own d r)
      | inr differ ↦ grind (int_laws, b d row e, counted, credit_at_other d d0 r own differ)
    ]

-- A refund that names no dealer is in no dealer's account.
update-nobody-IsBalanced :
    (k : ℕ) (r old : Refund) (s : Store)
    → lookup k s.refunds ≡ some old
    → old.dealer_id ≡ none
    → r.dealer_id ≡ none
    → IsBalanced s
    → IsBalanced (record s { refunds = update k r s.refunds })
update-nobody-IsBalanced k r old s found none_old none_new b d row e = grind (
  int_laws,
  b d row e,
  counted-update d k r old s.refunds found,
  nobody-credit_at d r none_new,
  nobody-credit_at d old none_old,
)

-- An increment that makes up for what the ledger is off by.
pub balancing-After :
    (d0 : ℕ) (off delta : ℤ) (s : Store)
    → IsOff d0 off s
    → off +ℤ delta ≡ pos 0
    → After (increment_balance d0 delta s) (λ _ t. IsBalanced t)
balancing-After d0 off delta s o z =
    After-mono (λ _ t. IsOff-IsBalanced d0 (off +ℤ delta) t z) (increment-IsOff d0 off delta s o)

settle_dealer-After :
    (d0 : ℕ) (off delta : ℤ) (s : Store)
    → IsOff d0 off s
    → off +ℤ delta ≡ pos 0
    → After (settle_refund (some d0) delta s) (λ _ t. IsBalanced t)
unfolding settle_refund
settle_dealer-After d0 off delta s o z = elim (Bool-cases (eqb_ℤ delta (pos 0))) [
  | inl nothing ↦ rw nothing (done (IsOff-IsBalanced d0 off s (grind int_laws) o))
  | inr something ↦ rw something (balancing-After d0 off delta s o z)
]

-- Putting a row of the same party in a refund's place, and settling, keeps the ledger balanced.
pub change-IsBalanced :
    (party : Option ℕ) (id : ℕ) (r new : Refund) (delta : ℤ) (s : Store)
    (history : List LedgerRevision)
    → lookup id s.refunds ≡ some r
    → r.dealer_id ≡ party
    → new.dealer_id ≡ party
    → delta ≡ effective_amount new -ℤ effective_amount r
    → IsBalanced s
    → After
        (settle_refund party delta
          (record s { refunds = update id new s.refunds; ledger_revisions = history }))
        (λ _ t. IsBalanced t)
unfolding settle_refund
change-IsBalanced none id r new delta s history found own own_new z b =
    done (update-nobody-IsBalanced id new r s found own own_new b)
change-IsBalanced (some d0) id r new delta s history found own own_new z b =
    settle_dealer-After d0 (effective_amount r -ℤ effective_amount new) delta _
      (update-IsOff d0 id new r (record s { ledger_revisions = history }) found own own_new b)
      (grind int_laws)

-- A new row keeps the ledger balanced, once its dealer's balance is incremented.
pub insert-nobody-IsBalanced :
    (k : ℕ) (r : Refund) (s : Store)
    → r.dealer_id ≡ none
    → IsBalanced s
    → IsBalanced (record s { refunds = insert k r s.refunds })
insert-nobody-IsBalanced k r s nobody b d row e =
    grind (int_laws, b d row e, counted-insert d k r s.refunds, nobody-credit_at d r nobody)

pub insert-owned-IsBalanced :
    (d0 k : ℕ) (r : Refund) (s : Store)
    → r.dealer_id ≡ some d0
    → IsBalanced s
    → After
        (increment_balance d0 (effective_amount r) (record s { refunds = insert k r s.refunds }))
        (λ _ t. IsBalanced t)
insert-owned-IsBalanced d0 k r s own b =
    balancing-After d0 (pos 0 -ℤ effective_amount r) (effective_amount r) _
      (insert-IsOff d0 k r s own b) (omega int_laws)
