-- ===== src/Clock.antt =====
-- src/common/utils/business-date.ts and duplicate-guard.ts over instants in milliseconds since the
-- Unix epoch. A business date is the number of its day in Colombo's calendar; the printing of that
-- number as `YYYY-MM-DD`, and its parsing, are the JavaScript runtime's.
pub mod Days
use electro_mart_backend.Prelude.{ℕ, ◌+◌, ◌-◌, ◌*◌, ◌/◌, Bool, Option, none, some, ltb, not}
use electro_mart_backend.Result.{Result, require, date_in_future}

abbrev pub offset_ms : ℕ
offset_ms = (5 * 60 + 30) * 60 * 1000

abbrev pub day_ms : ℕ
day_ms = 24 * 60 * 60 * 1000

unfoldable pub business_date_of : ℕ → ℕ
business_date_of t = (t + offset_ms) / day_ms

-- Midnight in Colombo, as an instant: exact from the second day of the epoch on.
unfoldable pub start_of_business_day : ℕ → ℕ
unfolding business_date_of
start_of_business_day t = business_date_of t * day_ms - offset_ms

unfoldable pub start_of_next_business_day : ℕ → ℕ
unfolding start_of_business_day
start_of_next_business_day t = start_of_business_day t + day_ms

-- The bounds `gte` and `lt` of a date filter; none where neither end is given.
unfoldable pub business_date_range : Option ℕ → Option ℕ → Option (Option ℕ × Option ℕ)
unfolding start_of_business_day start_of_next_business_day
business_date_range none none = none
business_date_range (some from) none = some (some (start_of_business_day from), none)
business_date_range none (some to) = some (none, some (start_of_next_business_day to))
business_date_range (some from) (some to) =
    some (some (start_of_business_day from), some (start_of_next_business_day to))

unfoldable pub assert_not_future_business_date : ℕ → ℕ → Result (Unit {0})
unfolding business_date_of
assert_not_future_business_date input now =
    require (not (ltb (business_date_of now) (business_date_of input))) date_in_future

abbrev pub duplicate_window_ms : ℕ
duplicate_window_ms = 10 * 60 * 1000

unfoldable pub duplicate_window_start : ℕ → ℕ
duplicate_window_start now = now - duplicate_window_ms
