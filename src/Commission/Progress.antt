-- ===== src/Commission/Progress.antt =====
-- A settlement's life as a state machine, and that the service implements it.
use electro_mart_backend.Prelude.{
  refl, ==→eq, arith, true, inr, inl, ◌==◌, Bool-cases, none, ◌∙◌, some, ◌≡◌, ℕ,
}
use electro_mart_backend.Store.{Store}
use electro_mart_backend.Rows.Commission.{RepSettlement, SettlementStatus}
use electro_mart_backend.Table.{lookup-update, insert, update, lookup}
use electro_mart_backend.Commission.Lines.{same_settlement_status}

-- The steps of a settlement. Rejected and reversed settlements are final.
pub data Step : SettlementStatus → SettlementStatus → Type 0 where
  approves : Step SettlementStatus.pending SettlementStatus.approved
  rejects_pending : Step SettlementStatus.pending SettlementStatus.rejected
  rejects_approved : Step SettlementStatus.approved SettlementStatus.rejected
  pays : Step SettlementStatus.approved SettlementStatus.paid
  reverses : Step SettlementStatus.paid SettlementStatus.reversed

pub data Steps : SettlementStatus → SettlementStatus → Type 0 where
  stays : (x : SettlementStatus) → Steps x x
  after : (x y z : SettlementStatus) → Step x y → Steps y z → Steps x z

pub Steps-trans : (x y z : SettlementStatus) → Steps x y → Steps y z → Steps x z
Steps-trans x y z (stays _) q = q
Steps-trans x y z (after _ w _ p ps) q = after x w z p (Steps-trans w y z ps q)

-- What a settlement is, whatever pays it: its status, and what it is for.
pub record IsNext (old new : RepSettlement) : Type 0 where
  pub steps : Steps old.status new.status
  pub same_total : new.total_commission ≡ old.total_commission
  pub same_representative : new.representative_id ≡ old.representative_id

-- Every settlement of a state is there in a later one, some steps on.
abbrev pub Advances : Store → Store → Type 0
Advances s t =
    (id : ℕ) (x : RepSettlement)
    → lookup id s.rep_settlements ≡ some x
    → (y : RepSettlement) × (lookup id t.rep_settlements ≡ some y) × IsNext x y

pub same-IsNext : (x : RepSettlement) → IsNext x x
same-IsNext x = record { steps = stays x.status; same_total = refl; same_representative = refl }

pub Advances-refl : (s : Store) → Advances s s
Advances-refl s id x found = (x, found, same-IsNext x)

pub Advances-trans : (s t u : Store) → Advances s t → Advances t u → Advances s u
Advances-trans s t u p q id x found =
    let (y, there, a) = p id x found in
    let (z, later, b) = q id y there in
    (
      z,
      later,
      record {
        steps = Steps-trans x.status y.status z.status a.steps b.steps;
        same_total = b.same_total ∙ a.same_total;
        same_representative = b.same_representative ∙ a.same_representative;
      },
    )

pub put-Advances :
    (id : ℕ) (old new : RepSettlement) (s : Store)
    → lookup id s.rep_settlements ≡ some old
    → IsNext old new
    → Advances s (record s { rep_settlements = update id new s.rep_settlements })
put-Advances id old new s found next_ k x there =
    let row = lookup-update k id new old s.rep_settlements found in
    elim (Bool-cases (k == id)) [
      | inl same ↦
          let own : x ≡ old = grind (arith, ==→eq k id same) in
          (new, rw (row, same) refl, rw own next_)
      | inr differ ↦ (x, rw (row, differ) there, same-IsNext x)
    ]

pub insert-Advances :
    (id : ℕ) (new : RepSettlement) (s : Store)
    → lookup id s.rep_settlements ≡ none
    → Advances s (record s { rep_settlements = insert id new s.rep_settlements })
unfolding insert lookup
insert-Advances id new s fresh k x there = elim (Bool-cases (k == id)) [
  | inl same ↦ absurd (let e = ==→eq k id same in let here = rw e at there in cc)
  | inr differ ↦ (x, rw differ there, same-IsNext x)
]

pub status_of_check : (x y : SettlementStatus) → same_settlement_status x y ≡ true → x ≡ y
status_of_check x y h = ground arith

pub stepped-IsNext :
    (old new : RepSettlement)
    → Step old.status new.status
    → new.total_commission ≡ old.total_commission
    → new.representative_id ≡ old.representative_id
    → IsNext old new
stepped-IsNext old new p same_total same_representative = record {
  steps = after old.status new.status new.status p (stays new.status);
  same_total = same_total;
  same_representative = same_representative;
}
