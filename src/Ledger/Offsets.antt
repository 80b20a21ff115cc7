-- ===== src/Ledger/Offsets.antt =====
-- A transaction takes the ledger off balance for one dealer and then settles it. `IsOff d x` says that
-- the stored balance of `d`, and of no other dealer, is above what the rows say by `x`.
use electro_mart_backend.Prelude.{
  ==→eq, ◌∙◌, ℕ, ◌≡◌, refl, some, ◌==◌, if◌then◌else◌, Bool-cases, inl, inr,
}
use electro_mart_backend.Prelude.Int.{ℤ, pos, ◌+ℤ◌, int_laws}
use electro_mart_backend.Rows.{Dealer, Invoice}
use electro_mart_backend.Table.{lookup-update, Table, lookup, update}
use electro_mart_backend.Table.Sums.{total-update}
use electro_mart_backend.Store.{Store, increment_balance}
use electro_mart_backend.Store.After.{done, After, or_throw-After}
use electro_mart_backend.Invoicing.{recompute_invoice_payment_status, current_status}
use electro_mart_backend.Ledger.{billed, due, IsBalanced}

abbrev pub IsOff : ℕ → ℤ → Store → Type 0
IsOff d0 x s =
    (d : ℕ) (row : Dealer)
    → lookup d s.dealers ≡ some row
    → row.outstanding_balance ≡ due d s +ℤ (if d == d0 then x else pos 0)

pub IsBalanced-IsOff : (d0 : ℕ) (s : Store) → IsBalanced s → IsOff d0 (pos 0) s
IsBalanced-IsOff d0 s b d row e = grind (int_laws, b d row e)

pub IsOff-IsBalanced : (d0 : ℕ) (x : ℤ) (s : Store) → x ≡ pos 0 → IsOff d0 x s → IsBalanced s
IsOff-IsBalanced d0 x s z o d row e = grind (int_laws, o d row e)

pub IsOff-eq : (d0 : ℕ) (x y : ℤ) (s : Store) → x ≡ y → IsOff d0 x s → IsOff d0 y s
IsOff-eq d0 x y s e o = rw (← e) o

-- The status of an invoice has no part in what it bills.
pub billed-update :
    (d id : ℕ) (i j : Invoice) (orders : Table _) (t : Table Invoice)
    → lookup id t ≡ some i
    → j.dealer_id ≡ i.dealer_id
    → j.order_id ≡ i.order_id
    → j.grand_total ≡ i.grand_total
    → billed d orders (update id j t) ≡ billed d orders t
unfolding billed
billed-update d id i j orders t e ed eo eg =
    total-update _ id j i t e ∙ rw (ed, eo, eg) (omega int_laws)

pub recompute-IsOff :
    (d0 : ℕ) (x : ℤ) (id : ℕ) (s : Store)
    → IsOff d0 x s
    → After (recompute_invoice_payment_status id s) (λ _ s'. IsOff d0 x s')
unfolding recompute_invoice_payment_status
recompute-IsOff d0 x id s o = or_throw-After _ _ _ _ λ (i : Invoice) e. done λ d row h.
    rw
      (billed-update d id i (record i { payment_status = current_status i id s }) s.orders
        s.invoices e refl refl refl)
      (o d row h)

-- The row that an increment leaves for a dealer is off by so much more.
increment_row :
    (d0 : ℕ) (x delta : ℤ) (s : Store)
    → IsOff d0 x s
    → (old : Dealer) → lookup d0 s.dealers ≡ some old
    → (d : ℕ) (row : Dealer)
    → lookup d (
        update d0 (record old { outstanding_balance = old.outstanding_balance +ℤ delta }) s.dealers)
      ≡ some row
    → row.outstanding_balance ≡ due d s +ℤ (if d == d0 then x +ℤ delta else pos 0)
increment_row d0 x delta s o old e d row h =
    let new : Dealer = record old { outstanding_balance = old.outstanding_balance +ℤ delta } in
    let found = lookup-update d d0 new old s.dealers e in
    elim (Bool-cases (d == d0)) [
      | inl same ↦ grind (int_laws, found, o d0 old e, ==→eq d d0 same)
      | inr differ ↦ grind (int_laws, found, o d row)
    ]

pub increment-IsOff :
    (d0 : ℕ) (x delta : ℤ) (s : Store)
    → IsOff d0 x s
    → After (increment_balance d0 delta s) (λ _ s'. IsOff d0 (x +ℤ delta) s')
unfolding increment_balance
increment-IsOff d0 x delta s o =
    or_throw-After _ _ _ _ λ (old : Dealer) e. done (increment_row d0 x delta s o old e)
