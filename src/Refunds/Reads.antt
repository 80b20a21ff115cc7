-- ===== src/Refunds/Reads.antt =====
-- The reading steps of RefundsService write nothing.
use electro_mart_backend.Prelude.{inr, inl, Bool-cases, ℕ, refl, Option, none, some}
use electro_mart_backend.Rows.{Refund}
use electro_mart_backend.Store.{Store}
use electro_mart_backend.Store.After.{
  Reads-mono, guard-Reads, or_throw-Reads, passes, next-Reads, fails, Reads,
}
use electro_mart_backend.Refunds.Credit.{assert_credit_covers, lock_party, resolve_purchase}
use electro_mart_backend.Refunds.Changes.{check_increase}
use electro_mart_backend.Prelude.Int.{pos, gtb_ℤ, ℤ}
use electro_mart_backend.Table.{lookup}

pub covers-Reads :
    (dealer_id supplier_id : Option ℕ) (increase : ℤ) (s : Store)
    → Reads (assert_credit_covers dealer_id supplier_id increase s) s (λ _. Unit {0})
unfolding assert_credit_covers
covers-Reads (some d) supplier_id increase s =
    next-Reads _ (or_throw-Reads (lookup d s.dealers) _ s)
      (λ dealer e. Reads-mono (λ _ _. tt) (guard-Reads _ _ s))
covers-Reads none (some id) increase s =
    next-Reads _ (or_throw-Reads (lookup id s.suppliers) _ s)
      (λ _ e. Reads-mono (λ _ _. tt) (guard-Reads _ _ s))
covers-Reads none none increase s = fails _ refl

pub party-Reads :
    (dealer_id supplier_id : Option ℕ) (s : Store)
    → Reads (lock_party dealer_id supplier_id s) s (λ _. Unit {0})
unfolding lock_party
party-Reads (some d) supplier_id s =
    next-Reads _ (or_throw-Reads (lookup d s.dealers) _ s) (λ dealer e. passes tt refl tt)
party-Reads none (some id) s = Reads-mono (λ _ _. tt) (or_throw-Reads (lookup id s.suppliers) _ s)
party-Reads none none s = fails _ refl

pub purchase-Reads :
    (purchase_id supplier_id : Option ℕ) (s : Store)
    → Reads (resolve_purchase purchase_id supplier_id s) s (λ _. Unit {0})
unfolding resolve_purchase
purchase-Reads none supplier_id s = passes none refl tt
purchase-Reads (some id) none s = fails _ refl
purchase-Reads (some id) (some supplier_id) s =
    next-Reads _ (or_throw-Reads (lookup id s.purchases) _ s)
      (λ purchase e. next-Reads _ (guard-Reads _ _ s) (λ _ _. passes (some id) refl tt))

pub increase-Reads :
    (r : Refund) (delta : ℤ) (s : Store) → Reads (check_increase r delta s) s (λ _. Unit {0})
unfolding check_increase
increase-Reads r delta s = elim (Bool-cases (gtb_ℤ delta (pos 0))) [
  | inl more ↦ rw more (covers-Reads r.dealer_id r.supplier_id delta s)
  | inr less ↦ rw less (passes tt refl tt)
]
