-- ===== src/Commission/Reconciled.antt =====
-- What a run of the reconciliation job leaves.
use electro_mart_backend.Prelude.{
  Bool-cases, ◌==◌, ◌≢◌, ◌⊎◌, any, refl, or_else, inr, some, arith, inl, false, Option-cases, ◌||◌,
  [], suc, true, ◌∷◌, none, ◌≡◌, Option, All, List, ℕ,
}
use electro_mart_backend.Rows.Commission.{
  CommissionRule, SettlementStatus, RepSettlement, LineStatus, CommissionLine,
}
use electro_mart_backend.Commission.Reconcile.{
  is_eligible, take_where, create_ledger_entries, resolve_rule, reversed_line, new_line,
  is_reversible, reverse_entries, entries_for, insert_lines, create_entries, reconcile,
}
use electro_mart_backend.Table.{lookup, insert, Table}
use electro_mart_backend.Store.{Env, Store}
use electro_mart_backend.Commission.Allotment.{
  IsAllotted, goes_with, is_allotted_to, AreAllotted, goes_in,
}
use electro_mart_backend.Prelude.Int.{ℤ}
use electro_mart_backend.Table.Predicates.{AllRows-update_where, AllRows}
use electro_mart_backend.Rows.{SalesReturn, Order, OrderItem}
use electro_mart_backend.Commission.Lines.{same_line_status}

unfoldable pub AreLoose : List CommissionLine → Type 0
AreLoose = All (λ l. (l.status ≡ LineStatus.pending) × (l.settlement_id ≡ none))

pub entries-AreLoose :
    (percent_of : ℤ → ℤ → ℤ) (representative order_id at now : ℕ) (rules : Table CommissionRule)
    (items : List OrderItem)
    → AreLoose (entries_for percent_of representative order_id at now rules items)
unfolding entries_for new_line AreLoose
entries-AreLoose percent_of representative order_id at now rules [] = tt
entries-AreLoose percent_of representative order_id at now rules (item ∷ items) =
    let rest = entries-AreLoose percent_of representative order_id at now rules items in
    elim (Option-cases (resolve_rule item.product_id at rules)) [
      | inl none_ ↦ rw (entries_for, none_) rest
      | inr (rule, found) ↦ rw (entries_for, found) ((refl, refl), rest)
    ]

insert-AreAllotted :
    (ts : Table RepSettlement) (next : ℕ) (ls : List CommissionLine) (t : Table CommissionLine)
    → AreLoose ls
    → AreAllotted ts t
    → AreAllotted ts (insert_lines next ls t)
unfolding insert_lines insert AreLoose
insert-AreAllotted ts next [] t loose allotted = allotted
insert-AreAllotted ts next (l ∷ ls) t ((pending_, free), loose) allotted =
    (rw (pending_, free) refl, insert-AreAllotted ts (suc next) ls t loose allotted)

create_entries-IsAllotted :
    (percent_of : ℤ → ℤ → ℤ) (now : ℕ) (batch : Table Order) (next : ℕ) (s : Store)
    → IsAllotted s
    → IsAllotted (create_entries percent_of next now batch s)
unfolding create_entries
create_entries-IsAllotted percent_of now [] next s allotted = allotted
create_entries-IsAllotted percent_of now ((id, o) ∷ batch) next s allotted =
    elim (Option-cases o.created_by_rep_id) [
      | inl nobody ↦ rw nobody (create_entries-IsAllotted percent_of now batch next s allotted)
      | inr (representative, by) ↦ rw by (
          create_entries-IsAllotted percent_of now batch _ _ (
            insert-AreAllotted s.rep_settlements next
              (entries_for percent_of representative id (or_else o.approved_at o.created_at) now
                s.commission_rules o.items)
              s.commission_lines (entries-AreLoose percent_of representative id _ now _ o.items)
              allotted))
    ]

reversing_with :
    (x : LineStatus) (y : SettlementStatus)
    → goes_with x y ≡ true
    → same_line_status x LineStatus.pending || same_line_status x LineStatus.approved ≡ true
    → goes_with LineStatus.reversed y ≡ true
reversing_with LineStatus.approved SettlementStatus.pending h live = refl
reversing_with LineStatus.approved SettlementStatus.approved h live = refl
reversing_with LineStatus.approved SettlementStatus.rejected h live = h
reversing_with LineStatus.approved SettlementStatus.paid h live = h
reversing_with LineStatus.approved SettlementStatus.reversed h live = h
reversing_with LineStatus.pending y h live = absurd (ground arith)
reversing_with LineStatus.settled y h live = absurd (ground arith)
reversing_with LineStatus.reversed y h live = h

reversing_in :
    (status : LineStatus) (t : Option RepSettlement)
    → goes_in status t ≡ true
    → same_line_status status LineStatus.pending || same_line_status status LineStatus.approved
      ≡ true
    → goes_in LineStatus.reversed t ≡ true
reversing_in status none allotted live = allotted
reversing_in status (some t) allotted live = reversing_with status t.status allotted live

reversing :
    (ts : Table RepSettlement) (status : LineStatus) (owner : Option ℕ)
    → is_allotted_to ts status owner ≡ true
    → same_line_status status LineStatus.pending || same_line_status status LineStatus.approved
      ≡ true
    → is_allotted_to ts LineStatus.reversed owner ≡ true
reversing ts status none allotted live = refl
reversing ts status (some i) allotted live = reversing_in status (lookup i ts) allotted live

-- A line is out of the way of a return: it is paid out or reversed already, or nothing came back from
-- its order.
unfoldable pub IsDue : Table SalesReturn → CommissionLine → Type 0
IsDue returns l =
    (l.status ≡ LineStatus.settled)
    ⊎ (l.status ≡ LineStatus.reversed)
    ⊎ AllRows (λ _ r. r.order_id ≢ l.order_id) returns

none_back :
    (order_id : ℕ) (returns : Table SalesReturn)
    → any (λ e. e.1.order_id == order_id) returns ≡ false
    → AllRows (λ _ r. r.order_id ≢ order_id) returns
none_back order_id [] h = tt
none_back order_id ((k, r) ∷ returns) h =
    ((λ e. ground arith), none_back order_id returns (ground arith))

closed :
    (status : LineStatus)
    → same_line_status status LineStatus.pending || same_line_status status LineStatus.approved
      ≡ false
    → (status ≡ LineStatus.settled) ⊎ (status ≡ LineStatus.reversed)
closed LineStatus.settled h = inl refl
closed LineStatus.reversed h = inr refl
closed _ h = absurd (ground arith)

kept-IsDue :
    (returns : Table SalesReturn) (l : CommissionLine)
    → is_reversible returns l ≡ false
    → IsDue returns l
unfolding is_reversible IsDue
kept-IsDue returns l h = elim (Bool-cases (any (λ e. e.1.order_id == l.order_id) returns)) [
  | inr nothing ↦ inr (inr (none_back l.order_id returns nothing))
  | inl back ↦ elim (closed l.status (ground arith)) [
    | inl paid_out ↦ inl paid_out
    | inr off ↦ inr (inl off)
  ]
]

live_line :
    (returns : Table SalesReturn) (l : CommissionLine)
    → is_reversible returns l ≡ true
    → same_line_status l.status LineStatus.pending || same_line_status l.status LineStatus.approved
      ≡ true
unfolding is_reversible
live_line returns l live = ground arith

reverse-IsAllotted :
    (s : Store)
    → IsAllotted s
    → IsAllotted (reverse_entries s)
      × AllRows
          (λ _ l. IsDue (reverse_entries s).sales_returns l)
          (reverse_entries s).commission_lines
unfolding reverse_entries reversed_line IsDue
reverse-IsAllotted s allotted = (
  AllRows-update_where _ _ _ _ s.commission_lines allotted
      (λ _ l here live.
        reversing s.rep_settlements l.status l.settlement_id here
          (live_line s.sales_returns l live))
      (λ _ l here other. here),
  AllRows-update_where _ _ _ _ s.commission_lines allotted (λ _ l here live. inr (inl refl))
      (λ _ l here other. kept-IsDue s.sales_returns l other),
)

-- A run of the job leaves every ledger line where its status says, if it was so before, and every line
-- of an order that something came back from is paid out or reversed then.
pub reconcile-IsAllotted :
    (percent_of : ℤ → ℤ → ℤ) (env : Env) (s : Store)
    → IsAllotted s
    → IsAllotted (reconcile percent_of env s)
      × AllRows
          (λ _ l. IsDue (reconcile percent_of env s).sales_returns l)
          (reconcile percent_of env s).commission_lines
unfolding reconcile create_ledger_entries
reconcile-IsAllotted percent_of env s allotted =
    reverse-IsAllotted (create_ledger_entries percent_of env.new_id env.now s) (
      create_entries-IsAllotted percent_of env.now
        (take_where 200 (is_eligible s.commission_lines) s.orders) env.new_id s allotted)
