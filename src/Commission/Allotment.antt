-- ===== src/Commission/Allotment.antt =====
-- The ledger lines go with the settlements that they are in.
use electro_mart_backend.Prelude.{
  ◌||◌, inr, ==→eq, inl, ◌==◌, arith, same_id, Bool-cases, none, some, false, true, Bool, ◌≡◌,
  Option, ℕ,
}
use electro_mart_backend.Store.{Store}
use electro_mart_backend.Table.{lookup-update, update, lookup, Table, insert}
use electro_mart_backend.Rows.Commission.{
  CommissionLine, RepSettlement, SettlementStatus, LineStatus,
}
use electro_mart_backend.Commission.Lines.{same_line_status}
use electro_mart_backend.Table.Predicates.{AllRows}

-- May a line in a status be in a settlement in a status?
abbrev pub goes_with : LineStatus → SettlementStatus → Bool
goes_with LineStatus.approved SettlementStatus.pending = true
goes_with LineStatus.approved SettlementStatus.approved = true
goes_with LineStatus.reversed SettlementStatus.pending = true
goes_with LineStatus.reversed SettlementStatus.approved = true
goes_with LineStatus.settled SettlementStatus.paid = true
goes_with _ _ = false

abbrev pub goes_in : LineStatus → Option RepSettlement → Bool
goes_in status none = false
goes_in status (some t) = goes_with status t.status

-- A line in no settlement is still to be settled, or was reversed.
abbrev pub is_allotted_to : Table RepSettlement → LineStatus → Option ℕ → Bool
is_allotted_to ts status none =
    same_line_status status LineStatus.pending || same_line_status status LineStatus.reversed
is_allotted_to ts status (some id) = goes_in status (lookup id ts)

abbrev pub AreAllotted : Table RepSettlement → Table CommissionLine → Type 0
AreAllotted ts = AllRows (λ _ l. is_allotted_to ts l.status l.settlement_id ≡ true)

abbrev pub IsAllotted : Store → Type 0
IsAllotted s = AreAllotted s.rep_settlements s.commission_lines

-- A settlement whose lines may stay as they are.
pub put_allotted :
    (ts : Table RepSettlement) (id : ℕ) (old new : RepSettlement) (status : LineStatus)
    (owner : Option ℕ)
    → lookup id ts ≡ some old
    → (goes_with status old.status ≡ true → goes_with status new.status ≡ true)
    → is_allotted_to ts status owner ≡ true
    → is_allotted_to (update id new ts) status owner ≡ true
put_allotted ts id old new status none found fits allotted = allotted
put_allotted ts id old new status (some i) found fits allotted =
    let row = lookup-update i id new old ts found in
    elim (Bool-cases (i == id)) [
      | inl same ↦ rw (row, same) (fits (rw (==→eq i id same, found) at allotted))
      | inr differ ↦ rw (row, differ) allotted
    ]

-- A line of another settlement, or of none.
pub other_allotted :
    (ts : Table RepSettlement) (id : ℕ) (old new : RepSettlement) (status : LineStatus)
    (owner : Option ℕ)
    → lookup id ts ≡ some old
    → same_id owner (some id) ≡ false
    → is_allotted_to ts status owner ≡ true
    → is_allotted_to (update id new ts) status owner ≡ true
other_allotted ts id old new status none found other allotted = allotted
other_allotted ts id old new status (some i) found other allotted =
    rw (lookup-update i id new old ts found, other) allotted

-- What a line of a settlement says of its status.
pub own_allotted :
    (ts : Table RepSettlement) (id : ℕ) (old : RepSettlement) (status : LineStatus)
    (owner : Option ℕ)
    → lookup id ts ≡ some old
    → same_id owner (some id) ≡ true
    → is_allotted_to ts status owner ≡ true
    → goes_with status old.status ≡ true
own_allotted ts id old status none found own allotted = absurd (ground arith)
own_allotted ts id old status (some i) found own allotted = rw (==→eq i id own, found) at allotted

pub insert_allotted :
    (ts : Table RepSettlement) (id : ℕ) (new : RepSettlement) (status : LineStatus)
    (owner : Option ℕ)
    → lookup id ts ≡ none
    → is_allotted_to ts status owner ≡ true
    → is_allotted_to (insert id new ts) status owner ≡ true
unfolding insert lookup
insert_allotted ts id new status none fresh allotted = allotted
insert_allotted ts id new status (some i) fresh allotted = elim (Bool-cases (i == id)) [
  | inl same ↦ absurd (let gone = rw (==→eq i id same, fresh) at allotted in cc)
  | inr differ ↦ rw differ allotted
]
