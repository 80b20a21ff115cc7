-- ===== src/Orders/Round.antt =====
-- An approved order can be packed, delivered and completed: none of the three steps fails.
use electro_mart_backend.Prelude.{ℕ, ◌≡◌, refl, Option, none, some, ◌∷◌}
use electro_mart_backend.Prelude.Int.{◌+ℤ◌}
use electro_mart_backend.Result.{ok}
use electro_mart_backend.Rows.{
  Dealer, Order, OrderStatus, approved, packed, delivered, completed, Invoice,
}
use electro_mart_backend.Table.{lookup, update, lookup-update_self}
use electro_mart_backend.Store.{Store, Env, log, or_throw, guard, lift, increment_balance, ◌>>◌}
use electro_mart_backend.Orders.Progress.{
  NextStatus, to_packed, to_delivered, to_completed, advance_status, advanced_order,
  bill_completion, bill_order, required_status, invoice_for, progress_activity,
}

-- The state after a step, but for the balance that the last one increments.
abbrev progressed : NextStatus → ℕ → Order → Env → Store → Store
progressed to id o env s = record s {
  orders = update id (advanced_order to o env.now) s.orders;
  activities = (progress_activity to, id) ∷ s.activities;
}

pack-ok :
    (id : ℕ) (o : Order) (env : Env) (s : Store)
    → lookup id s.orders ≡ some o
    → o.status ≡ approved
    → advance_status id to_packed env s ≡ ok (tt, progressed to_packed id o env s)
unfolding advance_status log or_throw guard lift required_status bill_completion
pack-ok id o env s found status = rw (found, status) refl

deliver-ok :
    (id : ℕ) (o : Order) (env : Env) (s : Store)
    → lookup id s.orders ≡ some o
    → o.status ≡ packed
    → advance_status id to_delivered env s ≡ ok (tt, progressed to_delivered id o env s)
unfolding advance_status log or_throw guard lift required_status bill_completion
deliver-ok id o env s found status = rw (found, status) refl

-- The dealer's row once the order is billed.
abbrev billed_row : Dealer → Invoice → Dealer
billed_row row i = record row { outstanding_balance = row.outstanding_balance +ℤ i.grand_total }

complete-ok :
    (id : ℕ) (o : Order) (i : Invoice) (row : Dealer) (env : Env) (s : Store)
    → lookup id s.orders ≡ some o
    → o.status ≡ delivered
    → invoice_for id s.invoices ≡ some i
    → lookup o.dealer_id s.dealers ≡ some row
    → advance_status id to_completed env s
      ≡ ok (
        tt,
        progressed to_completed id o env
            (record s { dealers = update o.dealer_id (billed_row row i) s.dealers }),
      )
unfolding advance_status log or_throw guard lift required_status bill_completion bill_order
    increment_balance
complete-ok id o i row env s found status invoiced known = rw (found, status, invoiced, known) refl

abbrev pub status_of : Option Order → Option OrderStatus
status_of none = none
status_of (some o) = some o.status

-- An approved order that has an invoice and a known dealer can be packed, delivered and completed, at
-- whatever times: the three steps commit, the order is completed then, and its dealer's stored balance
-- is higher by what the invoice comes to.
pub advance_status-completes :
    (id : ℕ) (o : Order) (i : Invoice) (row : Dealer) (e1 e2 e3 : Env) (s : Store)
    → lookup id s.orders ≡ some o
    → o.status ≡ approved
    → invoice_for id s.invoices ≡ some i
    → lookup o.dealer_id s.dealers ≡ some row
    → (t : Store) × ((advance_status id to_packed e1
            >> (advance_status id to_delivered e2 >> advance_status id to_completed e3))
          s
        ≡ ok (tt, t))
      × (status_of (lookup id t.orders) ≡ some completed)
      × (lookup o.dealer_id t.dealers
          ≡ some (record row { outstanding_balance = row.outstanding_balance +ℤ i.grand_total }))
unfolding advanced_order
advance_status-completes id o i row e1 e2 e3 s found status invoiced known =
    let o1 = advanced_order to_packed o e1.now in
    let s1 = progressed to_packed id o e1 s in
    let f1 : lookup id s1.orders ≡ some o1 = lookup-update_self id o1 o s.orders found in
    let o2 = advanced_order to_delivered o1 e2.now in
    let s2 = progressed to_delivered id o1 e2 s1 in
    let f2 : lookup id s2.orders ≡ some o2 = lookup-update_self id o2 o1 s1.orders f1 in
    let o3 = advanced_order to_completed o2 e3.now in
    let s3 =
      progressed to_completed id o2 e3
        (record s2 { dealers = update o.dealer_id (billed_row row i) s2.dealers }) in
    let f3 : lookup id s3.orders ≡ some o3 = lookup-update_self id o3 o2 s2.orders f2 in
    (
      s3,
      rw (pack-ok id o e1 s found status, deliver-ok id o1 e2 s1 f1 refl)
          (complete-ok id o2 i row e3 s2 f2 refl invoiced known),
      rw f3 refl,
      lookup-update_self o.dealer_id (billed_row row i) row s.dealers known,
    )
