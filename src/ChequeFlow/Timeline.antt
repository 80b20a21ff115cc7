-- ===== src/ChequeFlow/Timeline.antt =====
-- `buildTimeline`. A day is a number: the source compares days as texts "YYYY-MM-DD", which sort alike.
use electro_mart_backend.Prelude.{
  ◌&&◌, ◌==◌, leb, ltb, [], if◌then◌else◌, Option, foldl, or_else, Bool, ◌∷◌, List, ℕ,
}
use electro_mart_backend.Prelude.Int.{ltb_ℤ, gtb_ℤ, ◌-ℤ◌, ◌+ℤ◌, pos, ℤ}
use electro_mart_backend.ChequeFlow.Summary.{Direction}
use electro_mart_backend.Table.{Table}

pub record FlowRow : Type 0 where
  pub direction : Direction
  pub day : ℕ
  pub sum : Option ℤ

pub record DayEntry : Type 0 where
  pub receipts : ℤ
  pub payments : ℤ

abbrev pub row_amount : FlowRow → ℤ
row_amount row = or_else row.sum (pos 0)

unfoldable pub add_to_entry : DayEntry → FlowRow → DayEntry
add_to_entry e row = elim row.direction [
  | Direction.receivable ↦ record e { receipts = e.receipts +ℤ row_amount row }
  | Direction.payable ↦ record e { payments = e.payments +ℤ row_amount row }
]

-- A turn of the first loop: `byDay` has its days in the order of their first rows.
unfoldable pub add_row : Table DayEntry → FlowRow → Table DayEntry
unfolding add_to_entry
add_row [] row = (row.day, add_to_entry (record { receipts = pos 0; payments = pos 0 }) row) ∷ []
add_row ((k, e) ∷ t) row =
    if k == row.day then (k, add_to_entry e row) ∷ t else (k, e) ∷ add_row t row

-- `sort`, by insertion.
unfoldable pub insert_day : ℕ → DayEntry → Table DayEntry → Table DayEntry
insert_day k e [] = (k, e) ∷ []
insert_day k e ((j, f) ∷ t) = if ltb k j then (k, e) ∷ (j, f) ∷ t else (j, f) ∷ insert_day k e t

unfoldable pub sort_days : Table DayEntry → Table DayEntry
unfolding insert_day
sort_days [] = []
sort_days ((k, e) ∷ t) = insert_day k e (sort_days t)

pub record TimelineDay : Type 0 where
  pub date : ℕ
  pub receipts : ℤ
  pub payments : ℤ
  pub net : ℤ
  pub cumulative : ℤ
  pub shortfall : Bool

-- The last loop, with the running net.
unfoldable pub timeline_loop : ℤ → Table DayEntry → List TimelineDay
timeline_loop running [] = []
timeline_loop running ((k, e) ∷ t) =
    let net = e.receipts -ℤ e.payments in
    record {
      date = k;
      receipts = e.receipts;
      payments = e.payments;
      net = net;
      cumulative = running +ℤ net;
      shortfall = gtb_ℤ e.payments (pos 0) && ltb_ℤ (running +ℤ net) (pos 0);
    }
    ∷ timeline_loop (running +ℤ net) t

unfoldable pub build_timeline : List FlowRow → List TimelineDay
unfolding add_row sort_days timeline_loop
build_timeline rows = timeline_loop (pos 0) (sort_days (foldl add_row [] rows))

-- What a row adds to the net of its day.
unfoldable pub signed_amount : FlowRow → ℤ
signed_amount row = elim row.direction [
  | Direction.receivable ↦ row_amount row
  | Direction.payable ↦ pos 0 -ℤ row_amount row
]

-- The net of the rows up to a day.
unfoldable pub net_until : ℕ → List FlowRow → ℤ
unfolding signed_amount
net_until day [] = pos 0
net_until day (row ∷ rows) =
    if leb row.day day then signed_amount row +ℤ net_until day rows else net_until day rows
