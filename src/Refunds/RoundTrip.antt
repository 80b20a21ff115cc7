-- ===== src/Refunds/RoundTrip.antt =====
-- Cancelling a refund can be taken back.
use electro_mart_backend.Prelude.{
  Bool-cases, if◌then◌else◌, ℕ, ◌≡◌, refl, Bool, true, false, not, Option, none, some, is_some,
  Option-cases, inl, inr, arith, ◌∙◌,
}
use electro_mart_backend.Rows.{Refund}
use electro_mart_backend.Table.{Table, lookup, update, update-update_same, lookup-update_self}
use electro_mart_backend.Refunds.Form.{is_effective_refund}
use electro_mart_backend.Prelude.Int.{neg_ℤ}
use electro_mart_backend.Store.{Activity, Store, Env, log, M, pure, increment_balance}
use electro_mart_backend.Store.After.{
  After, After-mono, next-After, or_throw-After, guard-After, read-After, done,
}
use electro_mart_backend.Refunds.Form.{effective_amount}
use electro_mart_backend.Refunds.Changes.{
  cancel, restore, cancelled_refund, settle_refund, record_ledger_revision,
}
use electro_mart_backend.Refunds.Reads.{party-Reads, increase-Reads}
use electro_mart_backend.Prelude.Int.{pos, eqb_ℤ, ℤ}

increment-refunds :
    (d : ℕ) (x : ℤ) (s : Store) → After (increment_balance d x s) (λ _ t. t.refunds ≡ s.refunds)
unfolding increment_balance
increment-refunds d x s = or_throw-After _ _ s _ (λ _ _. done refl)

settle-refunds :
    (party : Option ℕ) (x : ℤ) (s : Store)
    → After (settle_refund party x s) (λ _ t. t.refunds ≡ s.refunds)
unfolding settle_refund
settle-refunds none x s = done refl
settle-refunds (some d) x s = elim (Bool-cases (eqb_ℤ x (pos 0))) [
  | inl nothing ↦ rw nothing (done refl)
  | inr something ↦ rw something (increment-refunds d x s)
]

withdraw-refunds :
    (party : Option ℕ) (x : ℤ) (counts : Bool) (s : Store)
    → After
        ((if counts
            then (elim party as (λ _. M (Unit {0})) [
              | none ↦ pure tt
              | some d ↦ increment_balance d x
            ])
            else pure tt)
          s)
        (λ _ t. t.refunds ≡ s.refunds)
withdraw-refunds party x false s = done refl
withdraw-refunds none x true s = done refl
withdraw-refunds (some d) x true s = increment-refunds d x s

-- The row that `restore` writes, over the one that `cancel` wrote.
live_again :
    (r : Refund) (at : Option ℕ)
    → not (is_some r.cancelled_at) ≡ true
    → cancelled_refund (cancelled_refund r at) none ≡ r
unfolding cancelled_refund
live_again r at live = elim (Option-cases r.cancelled_at) [
  | inl never ↦ rw (← never) refl
  | inr (t, cancelled) ↦ absurd (ground arith)
]

cancel-refunds :
    (id : ℕ) (env : Env) (s : Store)
    → After (cancel id env s) (λ _ t.
      (r : Refund) × (lookup id s.refunds ≡ some r)
      × (not (is_some r.cancelled_at) ≡ true)
      × (t.refunds ≡ update id (cancelled_refund r (some env.now)) s.refunds))
unfolding cancel record_ledger_revision log
cancel-refunds id env s = or_throw-After _ _ s _ (λ r found. guard-After _ _ s _ (λ live.
    read-After _ (party-Reads _ _ s) (λ _ _.
      next-After {f = λ _. log Activity.cancelled_refund id}
        (withdraw-refunds r.dealer_id (neg_ℤ r.amount) (is_effective_refund r) _)
        (λ _ t same. done (r, found, live, same)))))

rewritten :
    (id : ℕ) (q r : Refund) (s : Store)
    → lookup id s.refunds ≡ some q
    → lookup id s.refunds ≡ some r
    → update id (cancelled_refund q none) s.refunds ≡ update id (cancelled_refund r none) s.refunds
rewritten id q r s again found = cc

written :
    (id at : ℕ) (r : Refund) (t u : Table Refund)
    → lookup id t ≡ some r
    → u ≡ update id (cancelled_refund r (some at)) t
    → lookup id u ≡ some (cancelled_refund r (some at))
written id at r t u found e = rw e (lookup-update_self id (cancelled_refund r (some at)) r t found)

round_trip :
    (id at : ℕ) (r : Refund) (t u : Table Refund)
    → lookup id t ≡ some r
    → not (is_some r.cancelled_at) ≡ true
    → u ≡ update id (cancelled_refund r (some at)) t
    → update id (cancelled_refund (cancelled_refund r (some at)) none) u ≡ t
round_trip id at r t u found live e =
    rw (e, live_again r (some at) live)
      (update-update_same id (cancelled_refund r (some at)) r t found)

restore-refunds :
    (id : ℕ) (r : Refund) (env : Env) (s : Store)
    → lookup id s.refunds ≡ some r
    → After (restore id env s) (λ _ t. t.refunds ≡ update id (cancelled_refund r none) s.refunds)
unfolding restore record_ledger_revision log
restore-refunds id r env s found = or_throw-After _ _ s _ (λ q again. guard-After _ _ s _ (λ gone.
    read-After _ (party-Reads _ _ s) (λ _ _. read-After _ (increase-Reads _ _ s) (λ _ _.
      next-After {f = λ _. log Activity.restored_refund id}
        (settle-refunds q.dealer_id (effective_amount (cancelled_refund q none)) _)
        (λ _ t same. done (same ∙ rewritten id q r s again found))))))

-- Cancelling a refund and restoring it, at whatever times, gives back the table of refunds from
-- before, if both commit.
pub restore-cancel :
    (id : ℕ) (env later : Env) (s : Store)
    → After (cancel id env s) (λ _ t. After (restore id later t) (λ _ u. u.refunds ≡ s.refunds))
restore-cancel id env later s =
    After-mono
      (λ _ t (r, found, live, same).
        After-mono (λ _ u back. back ∙ round_trip id env.now r s.refunds t.refunds found live same)
          (restore-refunds id (cancelled_refund r (some env.now)) later t
            (written id env.now r s.refunds t.refunds found same)))
      (cancel-refunds id env s)
