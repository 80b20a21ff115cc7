-- ===== src/Commission/Reversed.antt =====
-- A run of the reconciliation job reverses no line without a return.
use electro_mart_backend.Prelude.{
  or_else, inl, inr, Option-cases, Bool-cases, ==→eq, arith, [], ◌∷◌, ◌≡◌, ◌≢◌, ◌⊎◌, ◌==◌, any,
  List, ℕ, true, suc,
}
use electro_mart_backend.Prelude.Int.{ℤ}
use electro_mart_backend.Rows.{Order, SalesReturn}
use electro_mart_backend.Rows.Commission.{LineStatus, CommissionLine}
use electro_mart_backend.Table.{Table, insert}
use electro_mart_backend.Table.Predicates.{AllRows, AllRows-update_where}
use electro_mart_backend.Store.{Env, Store}
use electro_mart_backend.Commission.Reconcile.{
  is_eligible, take_where, create_ledger_entries, reversed_line, is_reversible, reverse_entries,
  entries_for, insert_lines, create_entries, reconcile,
}
use electro_mart_backend.Commission.Reconciled.{AreLoose, entries-AreLoose}

-- A reversed line is of an order that something came back from.
unfoldable pub IsCaused : Table SalesReturn → CommissionLine → Type 0
IsCaused returns l =
    (l.status ≢ LineStatus.reversed) ⊎ (¬ AllRows (λ _ r. r.order_id ≢ l.order_id) returns)

some_back :
    (order_id : ℕ) (returns : Table SalesReturn)
    → any (λ e. e.1.order_id == order_id) returns ≡ true
    → ¬ AllRows (λ _ r. r.order_id ≢ order_id) returns
some_back order_id [] h all = absurd (ground arith)
some_back order_id ((k, r) ∷ returns) h (other, all) = elim (Bool-cases (r.order_id == order_id)) [
  | inl same ↦ other (==→eq r.order_id order_id same)
  | inr differ ↦ some_back order_id returns (ground arith) all
]

pending_line : (l : CommissionLine) → l.status ≡ LineStatus.pending → l.status ≢ LineStatus.reversed
pending_line l e h = ground arith

insert-IsCaused :
    (returns : Table SalesReturn) (next : ℕ) (ls : List CommissionLine) (t : Table CommissionLine)
    → AreLoose ls
    → AllRows (λ _ l. IsCaused returns l) t
    → AllRows (λ _ l. IsCaused returns l) (insert_lines next ls t)
unfolding insert_lines insert AreLoose IsCaused
insert-IsCaused returns next [] t loose caused = caused
insert-IsCaused returns next (l ∷ ls) t ((pending_, free), loose) caused =
    (inl (pending_line l pending_), insert-IsCaused returns (suc next) ls t loose caused)

create_entries-IsCaused :
    (percent_of : ℤ → ℤ → ℤ) (now : ℕ) (batch : Table Order) (next : ℕ) (s : Store)
    → AllRows (λ _ l. IsCaused s.sales_returns l) s.commission_lines
    → AllRows
        (λ _ l. IsCaused (create_entries percent_of next now batch s).sales_returns l)
        (create_entries percent_of next now batch s).commission_lines
unfolding create_entries
create_entries-IsCaused percent_of now [] next s caused = caused
create_entries-IsCaused percent_of now ((id, o) ∷ batch) next s caused =
    elim (Option-cases o.created_by_rep_id) [
      | inl nobody ↦ rw nobody (create_entries-IsCaused percent_of now batch next s caused)
      | inr (representative, by) ↦ rw by (
          create_entries-IsCaused percent_of now batch _ _ (
            insert-IsCaused s.sales_returns next
              (entries_for percent_of representative id (or_else o.approved_at o.created_at) now
                s.commission_rules o.items)
              s.commission_lines (entries-AreLoose percent_of representative id _ now _ o.items)
              caused))
    ]

reversible-back :
    (returns : Table SalesReturn) (l : CommissionLine)
    → is_reversible returns l ≡ true
    → ¬ AllRows (λ _ r. r.order_id ≢ l.order_id) returns
unfolding is_reversible
reversible-back returns l live = some_back l.order_id returns (ground arith)

-- A run of the job keeps it so that every reversed line is of an order that something came back from,
-- if it was: it reverses no line of another order.
pub reconcile-IsCaused :
    (percent_of : ℤ → ℤ → ℤ) (env : Env) (s : Store)
    → AllRows (λ _ l. IsCaused s.sales_returns l) s.commission_lines
    → AllRows
        (λ _ l. IsCaused (reconcile percent_of env s).sales_returns l)
        (reconcile percent_of env s).commission_lines
unfolding reconcile create_ledger_entries reverse_entries reversed_line IsCaused
reconcile-IsCaused percent_of env s caused =
    let made =
      create_entries-IsCaused percent_of env.now
        (take_where 200 (is_eligible s.commission_lines) s.orders) env.new_id s caused in
    AllRows-update_where _ _ _ _ _ made (λ _ l here live. inr (reversible-back _ l live))
      (λ _ l here other. here)
