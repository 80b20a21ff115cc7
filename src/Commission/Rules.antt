-- ===== src/Commission/Rules.antt =====
-- The rule that `resolveRule` picks is the highest of those in force.
use mathlib.Core.Path.{subst, sym}
use electro_mart_backend.Prelude.{
  leb, Bool, ==→eq, ◌⊎◌, ◌≤◌, refl, [], none, inr, inl, some, Bool-cases, arith, ◌∷◌, true, false,
  Option, ◌≡◌, ℕ,
}
use electro_mart_backend.Commission.Reconcile.{is_in_force, better_rule, resolve_rule, outranks}
use electro_mart_backend.Rows.Commission.{CommissionRule}
use electro_mart_backend.Table.{Table}
use electro_mart_backend.Table.Predicates.{AllRows-mono, AllRows}

outranks_trans :
    (q b r : CommissionRule) → outranks q b ≡ false → outranks b r ≡ false → outranks q r ≡ false
unfolding outranks
outranks_trans q b r h k = ground arith

outranks_refl : (r : CommissionRule) → outranks r r ≡ false
unfolding outranks
outranks_refl r = ground arith

outranks_asym : (q r : CommissionRule) → outranks q r ≡ true → outranks r q ≡ false
unfolding outranks
outranks_asym q r h = ground arith

-- A rule of the table that is in force and that no other one in force outranks; or none is in force.
abbrev IsTop : ℕ → ℕ → Table CommissionRule → Option CommissionRule → Type 0
IsTop product at t none = AllRows (λ _ q. is_in_force product at q ≡ false) t
IsTop product at t (some r) =
    (is_in_force product at r ≡ true)
    × AllRows (λ _ q. is_in_force product at q ≡ true → outranks q r ≡ false) t

kept_rule : (r b : CommissionRule) → outranks b r ≡ true → better_rule r (some b) ≡ b
unfolding better_rule
kept_rule r b above = rw above refl

taken_rule : (r b : CommissionRule) → outranks b r ≡ false → better_rule r (some b) ≡ r
unfolding better_rule
taken_rule r b below = rw below refl

better-IsTop :
    (product at k : ℕ) (r : CommissionRule) (t : Table CommissionRule)
    (best : Option CommissionRule)
    → is_in_force product at r ≡ true
    → IsTop product at t best
    → IsTop product at ((k, r) ∷ t) (some (better_rule r best))
unfolding better_rule
better-IsTop product at k r t none here idle =
    (here, ((λ _. outranks_refl r), AllRows-mono _ _ t idle (λ _ q off on. absurd (ground arith))))
better-IsTop product at k r t (some b) here (held, top) = elim (Bool-cases (outranks b r)) [
  | inl above ↦
      subst (λ x. IsTop product at ((k, r) ∷ t) (some x)) (sym (kept_rule r b above))
        (held, ((λ _. outranks_asym b r above), top))
  | inr below ↦
      subst (λ x. IsTop product at ((k, r) ∷ t) (some x)) (sym (taken_rule r b below))
        (
          here,
          (
            (λ _. outranks_refl r),
            AllRows-mono _ _ t top (λ _ q first on. outranks_trans q b r (first on) below),
          ),
        )
]

passed_over :
    (product at k : ℕ) (r : CommissionRule) (t : Table CommissionRule)
    (best : Option CommissionRule)
    → is_in_force product at r ≡ false
    → IsTop product at t best
    → IsTop product at ((k, r) ∷ t) best
passed_over product at k r t none off idle = (off, idle)
passed_over product at k r t (some b) off (held, top) = (held, ((λ on. absurd (ground arith)), top))

resolve_rule-IsTop :
    (product at : ℕ) (t : Table CommissionRule) → IsTop product at t (resolve_rule product at t)
unfolding resolve_rule
resolve_rule-IsTop product at [] = tt
resolve_rule-IsTop product at ((k, r) ∷ t) =
    let rest = resolve_rule-IsTop product at t in
    elim (Bool-cases (is_in_force product at r)) [
      | inl here ↦ rw here (better-IsTop product at k r t (resolve_rule product at t) here rest)
      | inr off ↦ rw off (passed_over product at k r t (resolve_rule product at t) off rest)
    ]

-- A rule for the product that has started at an instant and not ended before it.
unfoldable pub HasNotEnded : Option ℕ → ℕ → Type 0
HasNotEnded none at = Unit {0}
HasNotEnded (some end) at = at ≤ end

unfoldable pub Applies : ℕ → ℕ → CommissionRule → Type 0
unfolding HasNotEnded
Applies product at r = (r.product_id ≡ product) × (r.start_date ≤ at) × HasNotEnded r.end_date at

-- The rule `q` does not go before `r`: `r` is a campaign and `q` is none, or they are of one kind and
-- `q` did not start later.
unfoldable pub IsNoBetter : CommissionRule → CommissionRule → Type 0
IsNoBetter q r =
    ((r.is_campaign ≡ true) × (q.is_campaign ≡ false))
    ⊎ ((q.is_campaign ≡ r.is_campaign) × (q.start_date ≤ r.start_date))

-- The rule for a product at an instant: one that applies, of which no other that applies goes before
-- it; or no rule of the table applies.
abbrev pub IsBest : ℕ → ℕ → Table CommissionRule → Option CommissionRule → Type 0
IsBest product at t none = AllRows (λ _ q. ¬ Applies product at q) t
IsBest product at t (some r) =
    Applies product at r × AllRows (λ _ q. (¬ Applies product at q) ⊎ IsNoBetter q r) t

-- The test of the end date.
abbrev is_running : Option ℕ → ℕ → Bool
is_running end_date now = elim end_date [ none ↦ true | some end ↦ leb now end ]

running-HasNotEnded :
    (end_date : Option ℕ) (now : ℕ) → is_running end_date now ≡ true → HasNotEnded end_date now
unfolding HasNotEnded
running-HasNotEnded none now h = tt
running-HasNotEnded (some end) now h = ground arith

HasNotEnded-running :
    (end_date : Option ℕ) (now : ℕ) → HasNotEnded end_date now → is_running end_date now ≡ true
unfolding HasNotEnded
HasNotEnded-running none now h = refl
HasNotEnded-running (some end) now h = ground arith

in_force-Applies :
    (product now : ℕ) (r : CommissionRule)
    → is_in_force product now r ≡ true
    → Applies product now r
unfolding is_in_force Applies
in_force-Applies product now r on = (
  ==→eq r.product_id product (ground arith),
  (ground arith),
  running-HasNotEnded r.end_date now (ground arith),
)

off-Applies :
    (product now : ℕ) (r : CommissionRule)
    → is_in_force product now r ≡ false
    → ¬ Applies product now r
unfolding is_in_force Applies
off-Applies product now r off (own, started, not_ended) =
    let running = HasNotEnded-running r.end_date now not_ended in ground arith

below-IsNoBetter : (q r : CommissionRule) → outranks q r ≡ false → IsNoBetter q r
unfolding outranks IsNoBetter
below-IsNoBetter q r h = elim (Bool-cases q.is_campaign) [
  | inl campaign ↦ inr (ground arith)
  | inr plain ↦ elim (Bool-cases r.is_campaign) [
    | inl above ↦ inl (above, plain)
    | inr alike ↦ inr (ground arith)
  ]
]

top-IsBest :
    (product at : ℕ) (t : Table CommissionRule) (best : Option CommissionRule)
    → IsTop product at t best
    → IsBest product at t best
top-IsBest product at t none idle = AllRows-mono _ _ t idle (λ _ q. off-Applies product at q)
top-IsBest product at t (some r) (here, top) = (
  in_force-Applies product at r here,
  AllRows-mono _ _ t top (λ _ q below. elim (Bool-cases (is_in_force product at q)) [
    | inl on ↦ inr (below-IsNoBetter q r (below on))
    | inr off ↦ inl (off-Applies product at q off)
  ]),
)

-- The rule that a line's commission is computed by is for its product, has started at the time and
-- has not ended before it; and of all other rules of the table of which this is true none is a
-- campaign where it is none, or of its kind and started later. There is no such rule only when none
-- of the table applies.
pub resolve_rule-IsBest :
    (product at : ℕ) (t : Table CommissionRule) → IsBest product at t (resolve_rule product at t)
resolve_rule-IsBest product at t =
    top-IsBest product at t (resolve_rule product at t) (resolve_rule-IsTop product at t)
