-- ===== src/Clock/Days.antt =====
-- Business days partition the time line into half-open intervals of one day.
use electro_mart_backend.Prelude.{
  ℕ, ◌≤◌, ◌<◌, ◌≡◌, ◌↔◌, Bool, true, Option, none, some, arith, leb, ltb, ◌&&◌,
}
use electro_mart_backend.Clock.{
  day_ms, business_date_of, start_of_business_day, start_of_next_business_day, business_date_range,
}

-- From the second day of the epoch on, an instant lies in the interval from the start of its own
-- business day up to, and not including, the start of the next, and in that of no other day: an
-- instant lies between the two starts computed from `t` exactly when it has the business date of `t`.
pub day_interval_iff :
    (t u : ℕ)
    → day_ms ≤ t
    → ((start_of_business_day t ≤ u) × (u < start_of_next_business_day t))
      ↔ (business_date_of u ≡ business_date_of t)
unfolding start_of_next_business_day
day_interval_iff t u h = (λ b. omega arith, λ e. (omega arith, omega arith))

-- Does an instant pass the filter that a date range gives to a query?
abbrev pub passes : Option (Option ℕ × Option ℕ) → ℕ → Bool
passes none t = true
passes (some (gte, lt)) t =
    elim gte [ none ↦ true | some a ↦ leb a t ] && elim lt [ none ↦ true | some b ↦ ltb t b ]

-- The filter from `a` to `b` keeps exactly the instants whose business dates run from that of `a` to
-- that of `b`, both days included.
pub business_date_range_iff :
    (a b t : ℕ)
    → day_ms ≤ a
    → day_ms ≤ b
    → (passes (business_date_range (some a) (some b)) t ≡ true)
      ↔ ((business_date_of a ≤ business_date_of t) × (business_date_of t ≤ business_date_of b))
unfolding business_date_range
business_date_range_iff a b t ha hb = ground arith
