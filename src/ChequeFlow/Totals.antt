-- ===== src/ChequeFlow/Totals.antt =====
-- The summary of the cheque flow, by sums over its rows.
use mathlib.Core.List.{Permᴰ}
use electro_mart_backend.Prelude.{
  refl, [], or_else, ◌∙◌, sym, arith, false, ◌≡◌, ◌+◌, ◌∷◌, ◌&&◌, not, foldl, true, Bool, List,
  if◌then◌else◌, ℕ,
}
use electro_mart_backend.Prelude.Int.{int_laws, ◌-ℤ◌, ◌+ℤ◌, pos, ℤ}
use electro_mart_backend.ChequeFlow.Summary.{
  Direction, FlowStatus, same_direction, same_flow_status, GroupRow, Grouped, is_of, add_sum,
  add_count, SideTotals, ChequeFlowSummary, side, summarise,
}

-- What the rows of a direction and a status add up to.
unfoldable pub amount_of : Direction → FlowStatus → List GroupRow → ℤ
amount_of d st [] = pos 0
amount_of d st (row ∷ rows) =
    if same_direction row.direction d && same_flow_status row.status st
    then or_else row.sum (pos 0) +ℤ amount_of d st rows
    else amount_of d st rows

unfoldable pub count_of : Direction → FlowStatus → List GroupRow → ℕ
count_of d st [] = 0
count_of d st (row ∷ rows) =
    if same_direction row.direction d && same_flow_status row.status st
    then row.count + count_of d st rows
    else count_of d st rows

foldl-amount_of :
    (d : Direction) (st : FlowStatus) (rows : List GroupRow) (sums : Grouped ℤ)
    → foldl add_sum sums rows d st ≡ sums d st +ℤ amount_of d st rows
unfolding add_sum is_of amount_of
foldl-amount_of d st [] sums = omega int_laws
foldl-amount_of d st (row ∷ rows) sums =
    foldl-amount_of d st rows (add_sum sums row) ∙ grind int_laws

foldl-count_of :
    (d : Direction) (st : FlowStatus) (rows : List GroupRow) (counts : Grouped ℕ)
    → foldl add_count counts rows d st ≡ counts d st + count_of d st rows
unfolding add_count is_of count_of
foldl-count_of d st [] counts = omega arith
foldl-count_of d st (row ∷ rows) counts =
    foldl-count_of d st rows (add_count counts row) ∙ ground arith

-- The rows that count in the total of a side: neither bounced nor cancelled.
unfoldable pub is_live : Direction → GroupRow → Bool
is_live d row =
    same_direction row.direction d
    && not (same_flow_status row.status FlowStatus.bounced)
    && not (same_flow_status row.status FlowStatus.cancelled)

unfoldable pub live_amount : Direction → List GroupRow → ℤ
unfolding is_live
live_amount d [] = pos 0
live_amount d (row ∷ rows) =
    if is_live d row then or_else row.sum (pos 0) +ℤ live_amount d rows else live_amount d rows

unfoldable pub live_count : Direction → List GroupRow → ℕ
unfolding is_live
live_count d [] = 0
live_count d (row ∷ rows) =
    if is_live d row then row.count + live_count d rows else live_count d rows

-- A side by sums over its rows.
unfoldable pub side_of : Direction → List GroupRow → SideTotals
unfolding live_amount live_count
side_of d rows = record {
  total = live_amount d rows;
  pending = amount_of d FlowStatus.pending rows;
  cleared = amount_of d FlowStatus.cleared rows;
  bounced = amount_of d FlowStatus.bounced rows;
  cancelled = amount_of d FlowStatus.cancelled rows;
  count = live_count d rows;
  pending_count = count_of d FlowStatus.pending rows;
  cleared_count = count_of d FlowStatus.cleared rows;
  bounced_count = count_of d FlowStatus.bounced rows;
  cancelled_count = count_of d FlowStatus.cancelled rows;
}

unfoldable pub summary_of : List GroupRow → ChequeFlowSummary
unfolding side_of
summary_of rows = record {
  receivable = side_of Direction.receivable rows;
  payable = side_of Direction.payable rows;
  net_pending =
      amount_of Direction.receivable FlowStatus.pending rows
      -ℤ amount_of Direction.payable FlowStatus.pending rows;
}

one_amount :
    (here : Bool) (st : FlowStatus) (a x y z : ℤ)
    → x ≡ y +ℤ z
    → (if here
          && not (same_flow_status st FlowStatus.bounced)
          && not (same_flow_status st FlowStatus.cancelled)
        then a +ℤ x
        else x)
      ≡ (if here && same_flow_status st FlowStatus.pending then a +ℤ y else y)
        +ℤ (if here && same_flow_status st FlowStatus.cleared then a +ℤ z else z)
one_amount false st a x y z e = e
one_amount true FlowStatus.pending a x y z e = rw e (omega int_laws)
one_amount true FlowStatus.cleared a x y z e = rw e (omega int_laws)
one_amount true FlowStatus.bounced a x y z e = e
one_amount true FlowStatus.cancelled a x y z e = e

one_count :
    (here : Bool) (st : FlowStatus) (a x y z : ℕ)
    → x ≡ y + z
    → (if here
          && not (same_flow_status st FlowStatus.bounced)
          && not (same_flow_status st FlowStatus.cancelled)
        then a + x
        else x)
      ≡ (if here && same_flow_status st FlowStatus.pending then a + y else y)
        + (if here && same_flow_status st FlowStatus.cleared then a + z else z)
one_count false st a x y z e = e
one_count true FlowStatus.pending a x y z e = omega arith
one_count true FlowStatus.cleared a x y z e = omega arith
one_count true FlowStatus.bounced a x y z e = e
one_count true FlowStatus.cancelled a x y z e = e

live_amount-parts :
    (d : Direction) (rows : List GroupRow)
    → live_amount d rows
      ≡ amount_of d FlowStatus.pending rows +ℤ amount_of d FlowStatus.cleared rows
unfolding live_amount amount_of is_live
live_amount-parts d [] = omega int_laws
live_amount-parts d (row ∷ rows) =
    one_amount (same_direction row.direction d) row.status _ _ _ _ (live_amount-parts d rows)

live_count-parts :
    (d : Direction) (rows : List GroupRow)
    → live_count d rows ≡ count_of d FlowStatus.pending rows + count_of d FlowStatus.cleared rows
unfolding live_count count_of is_live
live_count-parts d [] = refl
live_count-parts d (row ∷ rows) =
    one_count (same_direction row.direction d) row.status _ _ _ _ (live_count-parts d rows)

side_by :
    (rows : List GroupRow) (d : Direction)
    → side (λ e st. amount_of e st rows) (λ e st. count_of e st rows) d ≡ side_of d rows
unfolding side side_of
side_by rows d = λ i. record {
  total = sym (live_amount-parts d rows) i;
  pending = amount_of d FlowStatus.pending rows;
  cleared = amount_of d FlowStatus.cleared rows;
  bounced = amount_of d FlowStatus.bounced rows;
  cancelled = amount_of d FlowStatus.cancelled rows;
  count = sym (live_count-parts d rows) i;
  pending_count = count_of d FlowStatus.pending rows;
  cleared_count = count_of d FlowStatus.cleared rows;
  bounced_count = count_of d FlowStatus.bounced rows;
  cancelled_count = count_of d FlowStatus.cancelled rows;
}

-- The summary by the totals of its rows, each taken by itself.
abbrev summary_by : Grouped ℤ → Grouped ℕ → ChequeFlowSummary
summary_by amount count = record {
  receivable = side amount count Direction.receivable;
  payable = side amount count Direction.payable;
  net_pending =
      (side amount count Direction.receivable).pending
      -ℤ (side amount count Direction.payable).pending;
}

summarise_by :
    (rows : List GroupRow)
    → summarise rows ≡ summary_by (λ d st. amount_of d st rows) (λ d st. count_of d st rows)
unfolding summarise
summarise_by rows = λ i. summary_by (λ d st. sums d st i) (λ d st. counts d st i)
  where
    sums :
        (d : Direction) (st : FlowStatus)
        → foldl add_sum (λ _ _. pos 0) rows d st ≡ amount_of d st rows
    sums d st = foldl-amount_of d st rows (λ _ _. pos 0) ∙ omega int_laws

    counts :
        (d : Direction) (st : FlowStatus)
        → foldl add_count (λ _ _. 0) rows d st ≡ count_of d st rows
    counts d st = foldl-count_of d st rows (λ _ _. 0) ∙ omega arith

summary_by-summary_of :
    (rows : List GroupRow)
    → summary_by (λ d st. amount_of d st rows) (λ d st. count_of d st rows) ≡ summary_of rows
unfolding summary_of side_of
summary_by-summary_of rows = λ i. record {
  receivable = side_by rows Direction.receivable i;
  payable = side_by rows Direction.payable i;
  net_pending =
      (side_by rows Direction.receivable i).pending -ℤ (side_by rows Direction.payable i).pending;
}

swapped_amount :
    (d : Direction) (st : FlowStatus) (a b : GroupRow) (rows : List GroupRow)
    → amount_of d st (a ∷ b ∷ rows) ≡ amount_of d st (b ∷ a ∷ rows)
unfolding amount_of
swapped_amount d st a b rows = grind int_laws

amount_of-Perm :
    (d : Direction) (st : FlowStatus) {rows others : List GroupRow}
    → Permᴰ rows others
    → amount_of d st rows ≡ amount_of d st others
unfolding amount_of
amount_of-Perm d st Permᴰ.nil = refl
amount_of-Perm d st (Permᴰ.cons e p) = let rest = amount_of-Perm d st p in rw (e, rest) refl
amount_of-Perm d st (Permᴰ.swap {a' = a} {b' = b} {l = l} e f) =
    rw (e, f) (swapped_amount d st b a l)
amount_of-Perm d st (Permᴰ.trans p q) = amount_of-Perm d st p ∙ amount_of-Perm d st q

count_of-Perm :
    (d : Direction) (st : FlowStatus) {rows others : List GroupRow}
    → Permᴰ rows others
    → count_of d st rows ≡ count_of d st others
unfolding count_of
count_of-Perm d st Permᴰ.nil = refl
count_of-Perm d st (Permᴰ.cons e p) = let rest = count_of-Perm d st p in rw (e, rest) refl
count_of-Perm d st (Permᴰ.swap e f) = rw (e, f) (ground arith)
count_of-Perm d st (Permᴰ.trans p q) = count_of-Perm d st p ∙ count_of-Perm d st q

-- The summary does not depend on the order of the rows: for each side and status it has the sums of
-- the amounts and of the counts of the rows of that side and status, in total those of the rows that
-- are neither bounced nor cancelled, and the net of what is pending.
pub summarise-Perm :
    (rows others : List GroupRow) → Permᴰ rows others → summarise rows ≡ summary_of others
summarise-Perm rows others p =
    summarise_by rows
    ∙ (λ i. summary_by (λ d st. amount_of-Perm d st p i) (λ d st. count_of-Perm d st p i))
    ∙ summary_by-summary_of others
