-- ===== src/ChequeFlow/Summary.antt =====
-- `summarise`. `toNumber` is read as exact.
use electro_mart_backend.Prelude.{
  or_else, false, ◌+◌, ◌&&◌, foldl, true, Bool, List, Option, if◌then◌else◌, ℕ,
}
use electro_mart_backend.Prelude.Int.{◌-ℤ◌, ◌+ℤ◌, pos, ℤ}

pub data Direction : Type 0 where
  receivable payable : Direction

pub data FlowStatus : Type 0 where
  pending cleared bounced cancelled : FlowStatus

abbrev pub same_direction : Direction → Direction → Bool
same_direction receivable receivable = true
same_direction payable payable = true
same_direction _ _ = false

abbrev pub same_flow_status : FlowStatus → FlowStatus → Bool
same_flow_status pending pending = true
same_flow_status cleared cleared = true
same_flow_status bounced bounced = true
same_flow_status cancelled cancelled = true
same_flow_status _ _ = false

-- A row of the `groupBy`: the sum of no row is null.
pub record GroupRow : Type 0 where
  pub direction : Direction
  pub status : FlowStatus
  pub sum : Option ℤ
  pub count : ℕ

-- A `Map` under the keys `direction:status`, an absent key being read as zero.
abbrev pub Grouped : Type 0 → Type 0
Grouped A = Direction → FlowStatus → A

unfoldable pub is_of : GroupRow → Direction → FlowStatus → Bool
is_of row d st = same_direction row.direction d && same_flow_status row.status st

unfoldable pub add_sum : Grouped ℤ → GroupRow → Grouped ℤ
unfolding is_of
add_sum sums row d st = if is_of row d st then sums d st +ℤ or_else row.sum (pos 0) else sums d st

unfoldable pub add_count : Grouped ℕ → GroupRow → Grouped ℕ
unfolding is_of
add_count counts row d st = if is_of row d st then counts d st + row.count else counts d st

pub record SideTotals : Type 0 where
  pub total : ℤ
  pub pending : ℤ
  pub cleared : ℤ
  pub bounced : ℤ
  pub cancelled : ℤ
  pub count : ℕ
  pub pending_count : ℕ
  pub cleared_count : ℕ
  pub bounced_count : ℕ
  pub cancelled_count : ℕ

pub record ChequeFlowSummary : Type 0 where
  pub receivable : SideTotals
  pub payable : SideTotals
  pub net_pending : ℤ

unfoldable pub side : Grouped ℤ → Grouped ℕ → Direction → SideTotals
side amount count d = record {
  total = amount d FlowStatus.pending +ℤ amount d FlowStatus.cleared;
  pending = amount d FlowStatus.pending;
  cleared = amount d FlowStatus.cleared;
  bounced = amount d FlowStatus.bounced;
  cancelled = amount d FlowStatus.cancelled;
  count = count d FlowStatus.pending + count d FlowStatus.cleared;
  pending_count = count d FlowStatus.pending;
  cleared_count = count d FlowStatus.cleared;
  bounced_count = count d FlowStatus.bounced;
  cancelled_count = count d FlowStatus.cancelled;
}

unfoldable pub summarise : List GroupRow → ChequeFlowSummary
unfolding add_sum add_count side
summarise rows =
    let sums = foldl add_sum (λ _ _. pos 0) rows in
    let counts = foldl add_count (λ _ _. 0) rows in
    record {
      receivable = side sums counts Direction.receivable;
      payable = side sums counts Direction.payable;
      net_pending =
          (side sums counts Direction.receivable).pending
          -ℤ (side sums counts Direction.payable).pending;
    }
