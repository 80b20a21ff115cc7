-- ===== src/SalesReturns/Balance.antt =====
-- What each change of the table of returns does to the accounts.
use electro_mart_backend.Prelude.{inr, inl, ◌∙◌, Bool-cases, ◌==◌, if◌then◌else◌, some, ◌≡◌, ℕ}
use electro_mart_backend.Table.{update, delete, lookup, insert, Table}
use electro_mart_backend.Rows.{Order, SalesReturn}
use electro_mart_backend.Ledger.{IsBalanced, goods_returned}
use electro_mart_backend.Store.{Store}
use electro_mart_backend.Table.Predicates.{AllRows}
use electro_mart_backend.Prelude.Int.{int_laws, pos, ◌+ℤ◌, ◌-ℤ◌}
use electro_mart_backend.Ledger.Offsets.{IsOff}
use electro_mart_backend.Table.Sums.{total-delete, total-update, total-insert}

-- A return is for the dealer of its order.
abbrev pub IsByOwner : Table Order → Table SalesReturn → Type 0
IsByOwner orders =
    AllRows (λ _ r. (o : Order) → lookup r.order_id orders ≡ some o → r.dealer_id ≡ o.dealer_id)

insert-due :
    (d k : ℕ) (r : SalesReturn) (t : Table SalesReturn)
    → goods_returned d (insert k r t)
      ≡ goods_returned d t +ℤ (if r.dealer_id == d then r.total_amount else pos 0)
unfolding goods_returned
insert-due d k r t = total-insert _ k r t

-- A new return leaves the balance of its dealer above what the rows say, by its total.
pub insert-IsOff :
    (k : ℕ) (r : SalesReturn) (s : Store)
    → IsBalanced s
    → IsOff r.dealer_id r.total_amount (record s { sales_returns = insert k r s.sales_returns })
insert-IsOff k r s b d row e =
    let counted = insert-due d k r s.sales_returns in
    elim (Bool-cases (d == r.dealer_id)) [
      | inl same ↦ grind (int_laws, b d row e, counted)
      | inr differ ↦ grind (int_laws, b d row e, counted)
    ]

update-due :
    (d k : ℕ) (r old : SalesReturn) (t : Table SalesReturn)
    → lookup k t ≡ some old
    → r.dealer_id ≡ old.dealer_id
    → goods_returned d (update k r t)
      ≡ goods_returned d t
        +ℤ (if old.dealer_id == d then r.total_amount -ℤ old.total_amount else pos 0)
unfolding goods_returned
update-due d k r old t found own = total-update _ k r old t found ∙ rw own (grind int_laws)

pub update-IsOff :
    (k : ℕ) (r old : SalesReturn) (s : Store)
    → lookup k s.sales_returns ≡ some old
    → r.dealer_id ≡ old.dealer_id
    → IsBalanced s
    → IsOff old.dealer_id
        (r.total_amount -ℤ old.total_amount)
        (record s { sales_returns = update k r s.sales_returns })
update-IsOff k r old s found own b d row e =
    let counted = update-due d k r old s.sales_returns found own in
    elim (Bool-cases (d == old.dealer_id)) [
      | inl same ↦ grind (int_laws, b d row e, counted)
      | inr differ ↦ grind (int_laws, b d row e, counted)
    ]

delete-due :
    (d k : ℕ) (old : SalesReturn) (t : Table SalesReturn)
    → lookup k t ≡ some old
    → goods_returned d (delete k t)
      ≡ goods_returned d t -ℤ (if old.dealer_id == d then old.total_amount else pos 0)
unfolding goods_returned
delete-due d k old t found = total-delete _ k old t found

pub delete-IsOff :
    (k : ℕ) (old : SalesReturn) (s : Store)
    → lookup k s.sales_returns ≡ some old
    → IsBalanced s
    → IsOff old.dealer_id
        (pos 0 -ℤ old.total_amount)
        (record s { sales_returns = delete k s.sales_returns })
delete-IsOff k old s found b d row e =
    let counted = delete-due d k old s.sales_returns found in
    elim (Bool-cases (d == old.dealer_id)) [
      | inl same ↦ grind (int_laws, b d row e, counted)
      | inr differ ↦ grind (int_laws, b d row e, counted)
    ]
