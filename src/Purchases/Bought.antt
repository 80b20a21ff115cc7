-- ===== src/Purchases/Bought.antt =====
-- Every request to PurchasesService moves the stock with its log, and what suppliers are owed with the
-- purchases.
use electro_mart_backend.Prelude.{
  arith, inr, inl, Bool-cases, true, ◌&&◌, not, refl, ◌∙◌, some, ◌⊎◌, ◌≡◌, List, ℕ,
}
use electro_mart_backend.Suppliers.Balance.{supplier_components, compute_supplier_balance}
use electro_mart_backend.Store.{Env, log, Store}
use electro_mart_backend.Purchases.Changes.{
  new_purchase, remove, new_purchase, edited_purchase, SerialAnswers, PurchaseLine, PurchaseForm,
  assert_supplier_not_overpaid, assert_supplier_and_products_exist, edit, create,
}
use electro_mart_backend.Inventory.Reconciled.{
  record_movements-IsReconciled, record_movements_keep, IsReconciled,
}
use electro_mart_backend.Purchases.Units.{
  units_in_form, units_bought, given_back, exchanged, brought_by,
}
use electro_mart_backend.Store.After.{
  done, lift-After, guard-After, next-After, read-After, or_throw-After, both-After, guard-Reads,
  Reads-mono, or_throw-Reads, next-Reads, After, Reads,
}
use electro_mart_backend.Prelude.Int.{ltb_ℤ, int_laws, ◌-ℤ◌, ◌+ℤ◌, ◌≤ℤ◌, ℤ, pos}
use electro_mart_backend.Table.{delete, update, lookup, Table}
use electro_mart_backend.Settlements.Settled.{owed}
use electro_mart_backend.Rows.{Purchase}
use electro_mart_backend.Inventory.{record_movements, Movement}
use electro_mart_backend.Purchases.Owed.{
  new_purchase-worth, value_at-worth, worth, owed-delete, owed-update, owed-insert, value_at,
}
use electro_mart_backend.Inventory.Shifted.{record_movements-IsShifted, IsShifted, brings, takes}

-- A supplier who owes the business does not owe more than before.
abbrev pub IsNotOverpaid : ℕ → Store → Store → Type 0
IsNotOverpaid supplier s t = (pos 0 ≤ℤ owed supplier t) ⊎ (owed supplier s ≤ℤ owed supplier t)

exist-Reads :
    (supplier : ℕ) (lines : List PurchaseLine) (s : Store)
    → Reads (assert_supplier_and_products_exist supplier lines s) s (λ _. Unit {0})
unfolding assert_supplier_and_products_exist
exist-Reads supplier lines s =
    next-Reads _ (or_throw-Reads (lookup supplier s.suppliers) _ s)
      (λ _ _. Reads-mono (λ _ _. tt) (guard-Reads _ _ s))

-- The suppliers are owed `more` than in the state `s`, and the purchases are `rows`.
abbrev Owing : Store → (ℕ → ℤ) → Table Purchase → Store → Type 0
Owing s more rows t = ((x : ℕ) → owed x t ≡ owed x s +ℤ more x) × (t.purchases ≡ rows)

moved_on : (a b c o n : ℤ) → a ≡ b -ℤ o +ℤ n → b ≡ c +ℤ pos 0 → a ≡ c +ℤ (n -ℤ o)
moved_on a b c o n e f = rw (e, f) (omega int_laws)

edited-Owing :
    (id : ℕ) (p new : Purchase) (s t : Store)
    → Owing s (λ _. pos 0) s.purchases t
    → lookup id s.purchases ≡ some p
    → (x : ℕ)
    → owed x (record t { purchases = update id new t.purchases })
      ≡ owed x s +ℤ (value_at x new -ℤ value_at x p)
edited-Owing id p new s t (same, rows) found x =
    moved_on _ _ _ _ _ (owed-update x id new p t (rw rows found)) (same x)

deleted-Owing :
    (id : ℕ) (p : Purchase) (s t : Store)
    → Owing s (λ _. pos 0) s.purchases t
    → lookup id s.purchases ≡ some p
    → (x : ℕ) → owed x (record t { purchases = delete id t.purchases }) ≡ owed x s -ℤ value_at x p
deleted-Owing id p s t (same, rows) found x =
    owed-delete x id p t (rw rows found) ∙ rw (same x) (omega int_laws)

settled_effect : (a c o n : ℤ) → a ≡ c +ℤ (n -ℤ o) → a ≡ c -ℤ o +ℤ n
settled_effect a c o n e = rw e (omega int_laws)

not_overpaid :
    (balance before : ℤ)
    → not (ltb_ℤ balance (pos 0) && ltb_ℤ balance before) ≡ true
    → (pos 0 ≤ℤ balance) ⊎ (before ≤ℤ balance)
not_overpaid balance before h = elim (Bool-cases (ltb_ℤ balance (pos 0))) [
  | inl owes ↦ inr (ground arith)
  | inr fine ↦ inl (ground arith)
]

module _ (opening : ℕ → ℕ) where
  moved-Owing :
      (base : Store) (more : ℕ → ℤ) (rows : Table Purchase) (ms : List Movement) (s : Store)
      → Owing base more rows s
      → IsReconciled opening s
      → After (record_movements ms s) (λ _ t. Owing base more rows t × IsReconciled opening t)
  unfolding compute_supplier_balance supplier_components
  moved-Owing base more rows ms s owing reconciled =
      both-After (record_movements_keep (Owing base more rows) (λ _ _ _ p. p) ms s owing)
        (record_movements-IsReconciled opening ms s reconciled)

  -- The same, with what the movements do to the stock.
  stocked-Owing :
      (base : Store) (more : ℕ → ℤ) (rows : Table Purchase) (ms : List Movement) (s : Store)
      → Owing base more rows s
      → IsReconciled opening s
      → After (record_movements ms s) (λ _ t.
        (Owing base more rows t × IsReconciled opening t) × IsShifted (brings ms) (takes ms) s t)
  stocked-Owing base more rows ms s owing reconciled =
      both-After (moved-Owing base more rows ms s owing reconciled)
        (record_movements-IsShifted ms s)

  -- A purchase that is recorded brings the units of its lines into stock, and keeps the stock
  -- reconciled with its log, if it was; its supplier is owed what the lines cost, less the transport;
  -- no other supplier's balance moves.
  pub create-owed :
      (form : PurchaseForm) (serials : SerialAnswers) (env : Env) (s : Store)
      → IsReconciled opening s
      → After (create form serials env s) (λ _ t.
        IsReconciled opening t
        × IsShifted (units_in_form form.items) (λ _. 0) s t
        × ((x : ℕ) → owed x t ≡ owed x s +ℤ worth x form))
  unfolding create log compute_supplier_balance supplier_components
  create-owed form serials env s reconciled = read-After _ (exist-Reads _ _ s) (λ _ _.
      next-After
        (stocked-Owing s (λ x. value_at x (new_purchase form)) _ _ _
          ((λ x. owed-insert x env.new_id (new_purchase form) s), refl) reconciled)
        (λ _ t (((effect, _), still), in_). lift-After _ t _ (λ _ _.
          done
            (still, brought_by form s t in_, (λ x. rw (← new_purchase-worth x form) (effect x))))))

  -- A purchase that is edited takes its old units of every product out of stock and brings the new
  -- ones in, and keeps the stock reconciled with its log, if it was; each supplier's balance moves by
  -- what the lines of the form are worth to them, less what the purchase was; and the supplier it was
  -- bought of does not come to owe the business, or to owe more.
  pub edit-owed :
      (id : ℕ) (form : PurchaseForm) (serials : SerialAnswers) (s : Store)
      → IsReconciled opening s
      → After (edit id form serials s) (λ _ t.
        IsReconciled opening t
        × ((p : Purchase) × (lookup id s.purchases ≡ some p)
            × IsShifted (units_in_form form.items) (units_bought p.items) s t
            × ((x : ℕ) → owed x t ≡ owed x s -ℤ value_at x p +ℤ worth x form)
            × IsNotOverpaid p.supplier_id s t))
  unfolding edit log assert_supplier_not_overpaid compute_supplier_balance supplier_components
  edit-owed id form serials s reconciled = or_throw-After _ _ s _ (λ p found.
      guard-After _ _ s _ (λ _. guard-After _ _ s _ (λ _. read-After _ (exist-Reads _ _ s) (λ _ _.
        lift-After _ s _ (λ _ _.
          next-After
            (stocked-Owing s (λ _. pos 0) s.purchases _ s ((λ x. omega int_laws), refl) reconciled)
            (λ _ t (((same, rows), still), out).
              next-After
                (stocked-Owing s (λ x. value_at x (edited_purchase p form) -ℤ value_at x p) _ _ _
                  (edited-Owing id p (edited_purchase p form) s t (same, rows) found, refl) still)
                (λ _ u (((effect, _), kept), back). lift-After _ u _ (λ _ _.
                  lift-After _ u _ (λ _ _. guard-After _ _ u _ (λ safe. done (
                    kept,
                    (
                      p,
                      found,
                      exchanged p form s t u out back,
                      (λ x. rw (← value_at-worth x p form) (settled_effect _ _ _ _ (effect x))),
                      not_overpaid _ _ safe,
                    ),
                  )))))))))))

  -- A purchase that is deleted takes its units of every product out of stock, and keeps the stock
  -- reconciled with its log, if it was; its supplier is owed that much less, without coming to owe the
  -- business, or to owe more; no other supplier's balance moves.
  pub remove-owed :
      (id : ℕ) (serials : SerialAnswers) (s : Store)
      → IsReconciled opening s
      → After (remove id serials s) (λ _ t.
        IsReconciled opening t
        × ((p : Purchase) × (lookup id s.purchases ≡ some p)
            × IsShifted (λ _. 0) (units_bought p.items) s t
            × ((x : ℕ) → owed x t ≡ owed x s -ℤ value_at x p)
            × IsNotOverpaid p.supplier_id s t))
  unfolding remove log assert_supplier_not_overpaid compute_supplier_balance supplier_components
  remove-owed id serials s reconciled = or_throw-After _ _ s _ (λ p found. guard-After _ _ s _ (λ _.
      guard-After _ _ s _ (λ _.
        next-After
          (stocked-Owing s (λ _. pos 0) s.purchases _ s ((λ x. omega int_laws), refl) reconciled)
          (λ _ t ((owing, still), out). lift-After _ t _ (λ _ _. lift-After _ _ _ (λ _ _.
            guard-After _ _ _ _ (λ safe. done (
              still,
              (
                p,
                found,
                given_back p s t out,
                deleted-Owing id p s t owing found,
                not_overpaid _ _ safe,
              ),
            ))))))))
