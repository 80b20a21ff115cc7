-- ===== src/Examples/Trade.antt =====
-- Purchases and the cheque flow, on a small database.
use mathlib.Core.List.{Permᴰ}
use electro_mart_backend.Table.{lookup}
use electro_mart_backend.Prelude.{
  none, refl, [], ◌∷◌, ◌≤◌, ◌-◌, some, suc, ◌≡◌, arith, List, ℕ, length,
}
use electro_mart_backend.Purchases.Changes.{
  new_purchase, PurchaseForm, SerialAnswers, create, edit, remove,
}
use electro_mart_backend.ChequeFlow.Months.{
  months_between_ends, IsBetween, months_from, months_between, IsMonth, Month, index, months_loop,
}
use electro_mart_backend.ChequeFlow.Timeline.{FlowRow}
use electro_mart_backend.Result.{ok}
use electro_mart_backend.Store.After.{After}
use electro_mart_backend.ChequeFlow.Summary.{FlowStatus, Direction, summarise, GroupRow}
use electro_mart_backend.ChequeFlow.Totals.{summarise-Perm, summary_of}
use electro_mart_backend.Inventory.Reconciled.{last_balance, went_out, IsReconciled, came_in}
use electro_mart_backend.Inventory.Shifted.{IsShifted}
use electro_mart_backend.Store.{Store}
use electro_mart_backend.Prelude.Int.{◌-ℤ◌, ◌+ℤ◌, pos}
use electro_mart_backend.Examples.Data.{nothing, env}
use electro_mart_backend.Rows.{Purchase}
use electro_mart_backend.Settlements.Settled.{owed}
use electro_mart_backend.Purchases.Owed.{value_at, worth}
use electro_mart_backend.Purchases.Units.{units_in_form, units_bought}
use electro_mart_backend.Purchases.Bought.{create-owed, edit-owed, remove-owed, IsNotOverpaid}

-- Supplier 5 has sold three units of product 30 at 2000, of which the business carried 100.
abbrev bought : PurchaseForm
bought = record {
  supplier_id = 5;
  purchase_date = 90000000;
  items = record { product_id = 30; quantity = 3; unit_cost = pos 2000 } ∷ [];
  transport_charges = some (pos 100);
}

abbrev answers : SerialAnswers
answers = record { editable = ok tt; registered = ok tt; removed = ok tt; shelf = ok tt }

abbrev trading : Store
trading = record nothing {
  suppliers = (5, tt) ∷ [];
  purchases = (4, new_purchase bought) ∷ [];
  stock = (30, 9) ∷ (31, 9) ∷ [];
}

shelf : IsReconciled (λ _. 9) trading
unfolding lookup came_in went_out last_balance
shelf id stock found = ground arith

-- Five units were bought, at 1900, and two of another product.
abbrev corrected : PurchaseForm
corrected = record {
  supplier_id = 5;
  purchase_date = 90000000;
  items =
      record { product_id = 30; quantity = 5; unit_cost = pos 1900 }
      ∷ record { product_id = 31; quantity = 2; unit_cost = pos 800 }
      ∷ [];
  transport_charges = none;
}

create-owed_example : After (create corrected answers env trading) (λ _ t.
    IsReconciled (λ _. 9) t
    × IsShifted (units_in_form corrected.items) (λ _. 0) trading t
    × ((x : ℕ) → owed x t ≡ owed x trading +ℤ worth x corrected))
create-owed_example = create-owed (λ _. 9) corrected answers env trading shelf

edit-owed_example : After (edit 4 corrected answers trading) (λ _ t.
    IsReconciled (λ _. 9) t
    × ((p : Purchase) × (lookup 4 trading.purchases ≡ some p)
        × IsShifted (units_in_form corrected.items) (units_bought p.items) trading t
        × ((x : ℕ) → owed x t ≡ owed x trading -ℤ value_at x p +ℤ worth x corrected)
        × IsNotOverpaid p.supplier_id trading t))
edit-owed_example = edit-owed (λ _. 9) 4 corrected answers trading shelf

remove-owed_example : After (remove 4 answers trading) (λ _ t.
    IsReconciled (λ _. 9) t
    × ((p : Purchase) × (lookup 4 trading.purchases ≡ some p)
        × IsShifted (λ _. 0) (units_bought p.items) trading t
        × ((x : ℕ) → owed x t ≡ owed x trading -ℤ value_at x p)
        × IsNotOverpaid p.supplier_id trading t))
remove-owed_example = remove-owed (λ _. 9) 4 answers trading shelf

-- A cheque of a customer and one of the business's own, both pending.
abbrev incoming : GroupRow
incoming = record {
  direction = Direction.receivable;
  status = FlowStatus.pending;
  sum = some (pos 700);
  count = 1;
}

abbrev outgoing : GroupRow
outgoing = record {
  direction = Direction.payable;
  status = FlowStatus.pending;
  sum = some (pos 900);
  count = 2;
}

summarise-Perm_example :
    summarise (incoming ∷ outgoing ∷ []) ≡ summary_of (outgoing ∷ incoming ∷ [])
summarise-Perm_example =
    summarise-Perm (incoming ∷ outgoing ∷ []) (outgoing ∷ incoming ∷ []) (Permᴰ.swap refl refl)

abbrev dated : List FlowRow
dated =
    record { direction = Direction.payable; day = 12; sum = some (pos 900) }
    ∷ record { direction = Direction.receivable; day = 3; sum = some (pos 700) }
    ∷ []

abbrev november : Month
november = record { year = 2025; month = 10 }

abbrev february : Month
february = record { year = 2026; month = 1 }

two_years_of_turns : suc (index february) - index november ≤ 24
unfolding index
two_years_of_turns = omega arith

november-IsMonth : IsMonth november
november-IsMonth = omega arith

february-IsMonth : IsMonth february
february-IsMonth = omega arith

months_between_ends_example :
    (months_loop 24 november february ≡ months_between november february)
    × (length (months_between november february) ≡ suc (index february) - index november)
    × (months_between november february
        ≡ months_from november (suc (index february) - index november))
    × IsBetween (index november) (index february) (months_between november february)
months_between_ends_example =
    months_between_ends 24 november february november-IsMonth february-IsMonth two_years_of_turns
