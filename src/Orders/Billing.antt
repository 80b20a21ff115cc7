-- ===== src/Orders/Billing.antt =====
-- What a completion adds to the invoices that count for a dealer.
use mathlib.Core.Path.{subst}
use electro_mart_backend.Prelude.{
  ℕ, ◌≡◌, refl, true, false, none, some, [], ◌∷◌, ◌==◌, ==→eq, Bool-cases, inl, inr, if◌then◌else◌,
  arith,
}
use electro_mart_backend.Prelude.Int.{pos, ◌+ℤ◌, int_laws}
use electro_mart_backend.Rows.{Order, Invoice}
use electro_mart_backend.Table.{Table, lookup, update, lookup-update}
use electro_mart_backend.Table.Sums.{total}
use electro_mart_backend.Table.Predicates.{AllRows}
use electro_mart_backend.Ledger.{billed, is_completed_status}
use electro_mart_backend.Orders.Progress.{invoice_for}

-- `orderId` is unique in the table of invoices.
abbrev pub OneInvoice : Table Invoice → Type 0
OneInvoice [] = Unit
OneInvoice ((_, i) ∷ t) = AllRows (λ _ j. (j.order_id == i.order_id) ≡ false) t × OneInvoice t

-- An order that is as complete as before bills as much as before.
pub billed-kept :
    (d id : ℕ) (new old : Order) (orders : Table Order) (t : Table Invoice)
    → lookup id orders ≡ some old
    → is_completed_status new.status ≡ is_completed_status old.status
    → billed d (update id new orders) t ≡ billed d orders t
unfolding billed total
billed-kept d id new old orders [] found same = refl
billed-kept d id new old orders ((k, i) ∷ t) found same =
    let row = lookup-update i.order_id id new old orders found in
    let rest = billed-kept d id new old orders t found same in
    elim (Bool-cases (i.order_id == id)) [
      | inl own ↦ grind (int_laws, row, rest, ==→eq i.order_id id own)
      | inr other ↦ grind (int_laws, row, rest)
    ]

billed-absent :
    (d id : ℕ) (new old : Order) (orders : Table Order) (t : Table Invoice)
    → lookup id orders ≡ some old
    → AllRows (λ _ j. (j.order_id == id) ≡ false) t
    → billed d (update id new orders) t ≡ billed d orders t
unfolding billed total
billed-absent d id new old orders [] found a = refl
billed-absent d id new old orders ((k, i) ∷ t) found (other, others) =
    let row = lookup-update i.order_id id new old orders found in
    grind (int_laws, row, other, billed-absent d id new old orders t found others)

absent-AllRows :
    (id : ℕ) (t : Table Invoice)
    → invoice_for id t ≡ none
    → AllRows (λ _ j. (j.order_id == id) ≡ false) t
unfolding invoice_for
absent-AllRows id [] e = tt
absent-AllRows id ((k, i) ∷ t) e = elim (Bool-cases (i.order_id == id)) [
  | inl own ↦ cc
  | inr other ↦ (other, absent-AllRows id t (ground arith))
]

-- An order without an invoice bills nothing.
pub billed-none :
    (d id : ℕ) (new old : Order) (orders : Table Order) (t : Table Invoice)
    → lookup id orders ≡ some old
    → invoice_for id t ≡ none
    → billed d (update id new orders) t ≡ billed d orders t
billed-none d id new old orders t found e =
    billed-absent d id new old orders t found (absent-AllRows id t e)

first_invoice :
    (id k : ℕ) (i : Invoice) (t : Table Invoice) (invoice : Invoice)
    → (i.order_id == id) ≡ true
    → invoice_for id ((k, i) ∷ t) ≡ some invoice
    → i ≡ invoice
unfolding invoice_for
first_invoice id k i t invoice own e = ground arith

later_invoice :
    (id k : ℕ) (i : Invoice) (t : Table Invoice) (invoice : Invoice)
    → (i.order_id == id) ≡ false
    → invoice_for id ((k, i) ∷ t) ≡ some invoice
    → invoice_for id t ≡ some invoice
unfolding invoice_for
later_invoice id k i t invoice other e = ground arith

-- An order that becomes complete bills its invoice.
pub billed-completed :
    (d id : ℕ) (new old : Order) (orders : Table Order) (invoice : Invoice) (t : Table Invoice)
    → lookup id orders ≡ some old
    → is_completed_status old.status ≡ false
    → is_completed_status new.status ≡ true
    → OneInvoice t
    → invoice_for id t ≡ some invoice
    → billed d (update id new orders) t
      ≡ billed d orders t +ℤ (if invoice.dealer_id == d then invoice.grand_total else pos 0)
unfolding billed total invoice_for
billed-completed d id new old orders invoice [] found open_ closed one e = cc
billed-completed d id new old orders invoice ((k, i) ∷ t) found open_ closed (alone, one) e =
    let row = lookup-update i.order_id id new old orders found in
    elim (Bool-cases (i.order_id == id)) [
      | inl own ↦
          let name : i.order_id ≡ id = ==→eq i.order_id id own in
          let absent : AllRows (λ _ j. (j.order_id == id) ≡ false) t =
            subst (λ n. AllRows (λ _ j. (j.order_id == n) ≡ false) t) name alone in
          grind (
            int_laws,
            row,
            name,
            billed-absent d id new old orders t found absent,
            first_invoice id k i t invoice own e,
          )
      | inr other ↦ grind (
        int_laws,
        row,
        later_invoice id k i t invoice other e,
        billed-completed d id new old orders invoice t found open_ closed one,
      )
    ]
