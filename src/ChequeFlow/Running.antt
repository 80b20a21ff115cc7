-- ===== src/ChequeFlow/Running.antt =====
-- The running net of the timeline.
use electro_mart_backend.Prelude.{◌&&◌, suc, leb, none, [], ◌≤◌, if◌then◌else◌, ◌∷◌, ◌≡◌, List, ℕ}
use electro_mart_backend.Prelude.Int.{ltb_ℤ, gtb_ℤ, ◌-ℤ◌, ◌+ℤ◌, pos, ℤ}
use electro_mart_backend.Table.{lookup, Table}
use electro_mart_backend.ChequeFlow.Timeline.{DayEntry, TimelineDay}

-- The net of the entries up to a day.
unfoldable upto : ℕ → Table DayEntry → ℤ
upto day [] = pos 0
upto day ((k, e) ∷ t) = if leb k day then e.receipts -ℤ e.payments +ℤ upto day t else upto day t

-- The days of a table, each once.
abbrev AreDistinct : Table DayEntry → Type 0
AreDistinct [] = Unit
AreDistinct ((k, e) ∷ t) = (lookup k t ≡ none) × AreDistinct t

-- The days of a table from a day on, each after the one before it.
abbrev AreAscending : ℕ → Table DayEntry → Type 0
AreAscending low [] = Unit
AreAscending low ((k, e) ∷ t) = (low ≤ k) × AreAscending (suc k) t

-- The days of a timeline from a day on, each after the one before it, with the net of all rows up to
-- it, and a shortfall where something is to be paid and that net is negative.
abbrev pub IsTimeline : (ℕ → ℤ) → ℕ → List TimelineDay → Type 0
IsTimeline net low [] = Unit
IsTimeline net low (x ∷ xs) =
    (low ≤ x.date)
    × (x.cumulative ≡ net x.date)
    × (x.net ≡ x.receipts -ℤ x.payments)
    × (x.shortfall ≡ (gtb_ℤ x.payments (pos 0) && ltb_ℤ (net x.date) (pos 0)))
    × IsTimeline net (suc x.date) xs
