-- ===== src/SalesReturns/Sound.antt =====
-- The requests to SalesReturnsService.
use electro_mart_backend.Prelude.{◌∙◌, ◌∷◌, refl, none, [], some, List, ◌≡◌, ℕ}
use electro_mart_backend.SalesReturns.Changes.{
  recompute_order_invoice, out_of_stock, edit, remove, move_items, into_stock, SerialReplies,
  edited_return, create, new_return,
}
use electro_mart_backend.Store.{M, Activity, lift, increment_balance, modify, ◌>>◌, Env, log, Store}
use electro_mart_backend.SalesReturns.Items.{
  items_total, no_duplicate_products, ReturnLine, units_returned,
}
use electro_mart_backend.Prelude.Int.{◌-ℤ◌, int_laws, pos, ℤ}
use electro_mart_backend.SalesReturns.Steps.{
  overdrawn-Reads, recompute_order_invoice-IsSoundBut, increment-IsSoundBut, move_items-IsSoundBut,
  IsHonest, IsSoundBut,
}
use electro_mart_backend.Table.{update, delete, lookup}
use electro_mart_backend.Ledger.{IsBalanced}
use electro_mart_backend.Rows.{SalesReturn, ReturnItem, Order}
use electro_mart_backend.Inventory.Reconciled.{IsReconciled}
use electro_mart_backend.Ledger.Offsets.{IsBalanced-IsOff, IsOff-IsBalanced}
use electro_mart_backend.Result.{ok}
use electro_mart_backend.Store.After.{
  After-mono, both-After, done, next-After, read-After, lift-After, guard-After, or_throw-After,
  After,
}
use electro_mart_backend.SalesReturns.Allowance.{IsPriced}
use electro_mart_backend.Table.Predicates.{AllRows-lookup}
use electro_mart_backend.Inventory.{record_movement, Movement}
use electro_mart_backend.Wallet.{assert_wallet_not_overdrawn}
use electro_mart_backend.SalesReturns.Balance.{delete-IsOff, update-IsOff, insert-IsOff}
use electro_mart_backend.SalesReturns.Honest.{
  inserted-IsHonest, edited-IsHonest, compute-Reads, deleted-IsHonest,
}

-- Every dealer's stored balance is what the rows say, a return's dealer is its order's, no more of a
-- product comes back than was ordered, and the stock is what its log says.
abbrev pub IsSound : (ℕ → ℕ) → Store → Type 0
IsSound opening s = IsBalanced s × (IsHonest s × IsReconciled opening s)

settled-IsSound :
    (opening : ℕ → ℕ) (d0 : ℕ) (x : ℤ) (s : Store)
    → x ≡ pos 0
    → IsSoundBut opening d0 x s
    → IsSound opening s
settled-IsSound opening d0 x s z (off, (honest, reconciled)) =
    (IsOff-IsBalanced d0 x s z off, (honest, reconciled))

move_items-tables :
    (movement : ReturnItem → Movement) (items : List ReturnItem) (s : Store)
    → After
        (move_items movement items s)
        (λ _ t. (t.orders ≡ s.orders) × (t.sales_returns ≡ s.sales_returns))
unfolding move_items record_movement
move_items-tables movement [] s = done (refl, refl)
move_items-tables movement (item ∷ items) s =
    next-After {P = λ _ t. (t.orders ≡ s.orders) × (t.sales_returns ≡ s.sales_returns)}
      (or_throw-After _ _ s _ (λ _ _. guard-After _ _ s _ (λ _. done (refl, refl))))
      (λ _ t same.
        After-mono (λ _ u p. (p.0 ∙ same.0, p.1 ∙ same.1)) (move_items-tables movement items t))

moved-After :
    (opening : ℕ → ℕ) (movement : ReturnItem → Movement) (items : List ReturnItem) (s : Store)
    → IsSound opening s
    → After
        (move_items movement items s)
        (λ _ t. IsSound opening t × ((t.orders ≡ s.orders) × (t.sales_returns ≡ s.sales_returns)))
moved-After opening movement items s (balanced, others) =
    both-After
      (After-mono (λ _ t. settled-IsSound opening 0 (pos 0) t refl)
        (move_items-IsSoundBut opening 0 (pos 0) movement items s
          (IsBalanced-IsOff 0 s balanced, others)))
      (move_items-tables movement items s)

create-IsSound :
    (opening : ℕ → ℕ) (order_id : ℕ) (lines : List ReturnLine) (date : ℕ) (serials : SerialReplies)
    (env : Env) (s : Store)
    → IsSound opening s
    → After (create order_id lines date serials env s) (λ _ t. IsSound opening t)
unfolding create new_return log
create-IsSound opening order_id lines date serials env s (balanced, (honest, reconciled)) =
    or_throw-After _ _ s _ (λ o found. guard-After _ _ s _ (λ _. lift-After _ s _ (λ _ once.
      read-After _ (compute-Reads order_id o lines none s) (λ items priced.
        let r = new_return order_id o date items env.now in
        let written =
          inserted-IsHonest env.new_id order_id o lines items date env.now s found once priced
            honest in
        next-After
          (move_items-IsSoundBut opening o.dealer_id (items_total items) into_stock items _
            (insert-IsOff env.new_id r s balanced, (written, reconciled)))
          (λ _ t moved.
            next-After (increment-IsSoundBut opening o.dealer_id _ _ t moved) (λ _ u settled.
              next-After
                (recompute_order_invoice-IsSoundBut opening o.dealer_id _ order_id u settled)
                (λ _ v still. lift-After _ v _ (λ _ _.
                  done (settled-IsSound opening o.dealer_id _ v (omega int_laws) still)))))))))

-- The end of `update`, over a state where the stock has moved.
edit_end-IsSound :
    (opening : ℕ → ℕ) (id : ℕ) (r : SalesReturn) (o : Order) (lines : List ReturnLine)
    (items : List ReturnItem) (date : ℕ) (serials : SerialReplies) (s : Store)
    → lookup id s.sales_returns ≡ some r
    → lookup r.order_id s.orders ≡ some o
    → no_duplicate_products [] lines ≡ ok tt
    → IsPriced o.items (λ p. units_returned r.order_id p (delete id s.sales_returns)) lines items
    → IsSound opening s
    → After
        ((do
          modify (λ s. record s {
            sales_returns = update id (edited_return r date items) s.sales_returns;
          })
          increment_balance o.dealer_id (r.total_amount -ℤ items_total items)
          assert_wallet_not_overdrawn o.dealer_id
          lift serials.applied
          lift serials.shelf
          recompute_order_invoice r.order_id
          log Activity.updated_sales_return id)
          s)
        (λ _ t. IsSound opening t)
unfolding edited_return log
edit_end-IsSound opening id r o lines items date serials s found ordered once priced
      (balanced, (honest, reconciled)) =
    let owner = AllRows-lookup _ id r s.sales_returns honest.0 found o ordered in
    let new = edited_return r date items in
    let written = edited-IsHonest id r o lines items date s found ordered once priced honest in
    let off = update-IsOff id new r s found refl balanced in
    next-After
      (increment-IsSoundBut opening o.dealer_id (items_total items -ℤ r.total_amount) _ _
        (rw (← owner) off, (written, reconciled)))
      (λ _ t settled. read-After _ (overdrawn-Reads o.dealer_id t) (λ _ _. lift-After _ t _ (λ _ _.
        lift-After _ t _ (λ _ _.
          next-After (recompute_order_invoice-IsSoundBut opening o.dealer_id _ r.order_id t settled)
            (λ _ u still. done (settled-IsSound opening o.dealer_id _ u (grind int_laws) still))))))

edit-IsSound :
    (opening : ℕ → ℕ) (id : ℕ) (lines : List ReturnLine) (date : ℕ) (serials : SerialReplies)
    (env : Env) (s : Store)
    → IsSound opening s
    → After (edit id lines date serials env s) (λ _ t. IsSound opening t)
unfolding edit
edit-IsSound opening id lines date serials env s sound = or_throw-After _ _ s _ (λ r found.
    lift-After _ s _ (λ _ _. or_throw-After _ _ s _ (λ o ordered. guard-After _ _ s _ (λ _.
      lift-After _ s _ (λ _ once. lift-After _ s _ (λ _ _.
        read-After _ (compute-Reads r.order_id o lines (some id) s) (λ items priced.
          next-After (moved-After opening out_of_stock r.items s sound) (λ _ t (moved, same).
            next-After (moved-After opening into_stock items t moved) (λ _ u (moved', same').
              edit_end-IsSound opening id r o lines items date serials u
                (rw (same'.1, same.1) found) (rw (same'.0, same.0) ordered) once
                (rw (same'.1, same.1) priced) moved')))))))))

remove-IsSound :
    (opening : ℕ → ℕ) (id : ℕ) (serials : SerialReplies) (env : Env) (s : Store)
    → IsSound opening s
    → After (remove id serials env s) (λ _ t. IsSound opening t)
unfolding remove log
remove-IsSound opening id serials env s sound = or_throw-After _ _ s _ (λ r found.
    lift-After _ s _ (λ _ _. or_throw-After _ _ s _ (λ o ordered. lift-After _ s _ (λ _ _.
      next-After (moved-After opening out_of_stock r.items s sound)
        (λ _ t ((balanced, (honest, reconciled)), same).
          let here : lookup id t.sales_returns ≡ some r = rw same.1 found in
          let owner = AllRows-lookup _ id r t.sales_returns honest.0 here o (rw same.0 ordered) in
          next-After
            (increment-IsSoundBut opening o.dealer_id (pos 0 -ℤ r.total_amount) _ _ (
              rw (← owner) (delete-IsOff id r t here balanced),
              (deleted-IsHonest id t honest, reconciled),
            ))
            (λ _ u settled.
              next-After
                (recompute_order_invoice-IsSoundBut opening o.dealer_id _ r.order_id u settled)
                (λ _ v still. read-After _ (overdrawn-Reads o.dealer_id v) (λ _ _.
                  lift-After _ v _ (λ _ _.
                    done (settled-IsSound opening o.dealer_id _ v (grind int_laws) still))))))))))

-- The routes of sales-returns.controller.ts that write, less the reset of the counter.
pub data ReturnRequest : Type 0 where
  create_return edit_return : ℕ → List ReturnLine → ℕ → ReturnRequest
  remove_return : ℕ → ReturnRequest

unfoldable pub handle_return : ReturnRequest → SerialReplies → Env → M (Unit {0})
handle_return (create_return order_id lines date) serials env =
    create order_id lines date serials env
handle_return (edit_return id lines date) serials env = edit id lines date serials env
handle_return (remove_return id) serials env = remove id serials env

-- A sales return that is recorded, corrected or deleted, and commits, keeps these, if they held before
-- it: every dealer's stored balance is what the rows say; a return's dealer is its order's; no more of
-- a product comes back, over all the returns of an order, than was ordered; the stock is what its log
-- says.
pub handle_return-IsSound :
    (opening : ℕ → ℕ) (q : ReturnRequest) (serials : SerialReplies) (env : Env) (s : Store)
    → IsSound opening s
    → After (handle_return q serials env s) (λ _ t. IsSound opening t)
unfolding handle_return
handle_return-IsSound opening (create_return order_id lines date) serials env s sound =
    create-IsSound opening order_id lines date serials env s sound
handle_return-IsSound opening (edit_return id lines date) serials env s sound =
    edit-IsSound opening id lines date serials env s sound
handle_return-IsSound opening (remove_return id) serials env s sound =
    remove-IsSound opening id serials env s sound
