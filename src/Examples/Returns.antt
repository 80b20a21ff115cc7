-- ===== src/Examples/Returns.antt =====
-- Goods that come back, on a small database.
use electro_mart_backend.Prelude.{refl, true, ◌≡◌, arith, [], ◌∷◌, List, ℕ}
use electro_mart_backend.SalesReturns.Items.{find_item, ReturnLine, units_returned}
use electro_mart_backend.Ledger.{IsBalanced}
use electro_mart_backend.Store.After.{After}
use electro_mart_backend.SalesReturns.Refusals.{
  create-refused, has_excess, has_repeats, is_refusable,
}
use electro_mart_backend.Result.{err, ok, Error}
use electro_mart_backend.Store.{Store}
use electro_mart_backend.Table.{lookup}
use electro_mart_backend.SalesReturns.Changes.{create, SerialReplies}
use electro_mart_backend.Inventory.Reconciled.{IsReconciled, last_balance, went_out, came_in}
use electro_mart_backend.SalesReturns.Steps.{IsHonest}
use electro_mart_backend.Examples.Data.{owing, owing-IsBalanced, env}
use electro_mart_backend.SalesReturns.Allowance.{ordered_units}
use electro_mart_backend.SalesReturns.Sound.{
  handle_return-IsSound, IsSound, create_return, handle_return,
}

-- Dealer 7 owes a completed order of four units of product 30; nine more are in stock.
abbrev delivered_goods : Store
delivered_goods = record owing { stock = (30, 9) ∷ [] }

abbrev units : ℕ → List ReturnLine
units n = record { product_id = 30; quantity = n } ∷ []

abbrev no_serials : SerialReplies
no_serials = record { reversed = ok tt; applied = ok tt; shelf = ok tt }

goods_in_stock : IsReconciled (λ _. 9) delivered_goods
unfolding lookup came_in went_out last_balance
goods_in_stock id stock found = ground arith

goods-IsBalanced : IsBalanced delivered_goods
goods-IsBalanced = owing-IsBalanced

goods-IsHonest : IsHonest delivered_goods
unfolding units_returned
goods-IsHonest = (tt, (λ id o found product. omega arith))

handle_return-IsSound_example :
    After
      (handle_return (create_return 1 (units 1) 95000000) no_serials env delivered_goods)
      (λ _ t. IsSound (λ _. 9) t)
handle_return-IsSound_example =
    handle_return-IsSound (λ _. 9) (create_return 1 (units 1) 95000000) no_serials env
      delivered_goods (goods-IsBalanced, (goods-IsHonest, goods_in_stock))

too_many : is_refusable 1 (units 5) delivered_goods ≡ true
unfolding is_refusable has_repeats has_excess ordered_units units_returned find_item lookup
too_many = refl

create-refused_example :
    (e : Error) × (create 1 (units 5) 95000000 no_serials env delivered_goods ≡ err e)
create-refused_example = create-refused 1 (units 5) 95000000 no_serials env delivered_goods too_many
