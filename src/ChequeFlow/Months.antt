-- ===== src/ChequeFlow/Months.antt =====
-- `monthsBetween`, over the first days of months.
use mathlib.Core.Path.{subst}
use electro_mart_backend.Prelude.{
  sym, true, ◌∙◌, ap, All, length, false, refl, ◌≤◌, zero, ◌&&◌, ◌==◌, ◌||◌, ◌∷◌, ◌-◌, ◌+◌, ltb,
  suc, leb, [], if◌then◌else◌, arith, ◌<◌, ◌≡◌, Bool, List, ◌*◌, ℕ,
}

-- A month of a year, counted from 0 as `getUTCMonth` does.
pub record Month : Type 0 where
  pub year : ℕ
  pub month : ℕ

-- `new Date(Date.UTC(d.getUTCFullYear(), d.getUTCMonth() + 1, 1))`: the twelfth month overflows.
unfoldable pub next_month : Month → Month
next_month d =
    if ltb (d.month + 1) 12
    then record { year = d.year; month = d.month + 1 }
    else record { year = d.year + 1; month = 0 }

-- `d <= end`
unfoldable pub not_after : Month → Month → Bool
not_after d e = ltb d.year e.year || (d.year == e.year && leb d.month e.month)

-- The loop, for as many turns as there is fuel.
unfoldable pub months_loop : ℕ → Month → Month → List Month
unfolding next_month not_after
months_loop zero d end = []
months_loop (suc fuel) d end =
    let rest = months_loop fuel (next_month d) end in if not_after d end then d ∷ rest else []

-- The months since year 0.
unfoldable pub index : Month → ℕ
index d = 12 * d.year + d.month

-- One turn for each month from the first to the last.
unfoldable pub months_between : Month → Month → List Month
unfolding months_loop index
months_between from to = months_loop (suc (index to) - index from) from to

-- A month of a date.
abbrev pub IsMonth : Month → Type 0
IsMonth d = d.month < 12

next-IsMonth : (d : Month) → IsMonth d → IsMonth (next_month d)
unfolding next_month
next-IsMonth d h = ground arith

next-index : (d : Month) → IsMonth d → index (next_month d) ≡ suc (index d)
unfolding next_month index
next-index d h = ground arith

not_after-index : (d e : Month) → IsMonth d → IsMonth e → not_after d e ≡ leb (index d) (index e)
unfolding not_after index
not_after-index d e h k = ground arith

-- The months from the first to the last, by their count from the first.
unfoldable pub months_from : Month → ℕ → List Month
months_from d zero = []
months_from d (suc n) = d ∷ months_from (next_month d) n

-- The loop ends by its own test, whatever the fuel, if there is a turn for each month and one more.
months_loop_stops :
    (n fuel : ℕ) (d end : Month)
    → IsMonth d
    → IsMonth end
    → n ≡ suc (index end) - index d
    → n ≤ fuel
    → months_loop fuel d end ≡ months_from d n
unfolding months_loop months_from
months_loop_stops zero zero d end h k e enough = refl
months_loop_stops zero (suc fuel) d end h k e enough =
    let over : not_after d end ≡ false = not_after-index d end h k ∙ ground arith in rw over refl
months_loop_stops (suc n) zero d end h k e enough = absurd (omega arith)
months_loop_stops (suc n) (suc fuel) d end h k e enough =
    let under : not_after d end ≡ true = not_after-index d end h k ∙ ground arith in
    let step = next-index d h in
    rw
      (
        under,
        months_loop_stops n fuel (next_month d) end (next-IsMonth d h) k (omega arith)
            (omega arith),
      )
      refl

abbrev pub IsBetween : ℕ → ℕ → List Month → Type 0
IsBetween low high = All (λ m. IsMonth m × (low ≤ index m) × (index m ≤ high))

from-IsBetween :
    (n : ℕ) (d : Month) (low high : ℕ)
    → IsMonth d
    → low ≤ index d
    → n ≤ suc high - index d
    → IsBetween low high (months_from d n)
unfolding months_from
from-IsBetween zero d low high h above below = tt
from-IsBetween (suc n) d low high h above below =
    let step = next-index d h in
    (
      (h, above, omega arith),
      from-IsBetween n (next_month d) low high (next-IsMonth d h) (omega arith) (omega arith),
    )

length-months_from : (d : Month) (n : ℕ) → length (months_from d n) ≡ n
unfolding months_from
length-months_from d zero = refl
length-months_from d (suc n) = ap suc (length-months_from (next_month d) n)

-- The loop of `monthsBetween` ends: with any number of turns from one for each month of the span on,
-- it gives the same list, of as many months as the span has, each a month of the span, and each the
-- month after the one before it.
pub months_between_ends :
    (fuel : ℕ) (from to : Month)
    → IsMonth from
    → IsMonth to
    → suc (index to) - index from ≤ fuel
    → (months_loop fuel from to ≡ months_between from to)
      × (length (months_between from to) ≡ suc (index to) - index from)
      × (months_between from to ≡ months_from from (suc (index to) - index from))
      × IsBetween (index from) (index to) (months_between from to)
unfolding months_between
months_between_ends fuel from to h k enough =
    let n = suc (index to) - index from in
    let whole = months_loop_stops n n from to h k refl (omega arith) in
    (
      months_loop_stops n fuel from to h k refl enough ∙ sym whole,
      ap length whole ∙ length-months_from from n,
      whole,
      subst (IsBetween (index from) (index to)) (sym whole)
          (from-IsBetween n from (index from) (index to) h (omega arith) (omega arith)),
    )
