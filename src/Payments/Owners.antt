-- ===== src/Payments/Owners.antt =====
-- A payment never changes hands: its row and every before-image of it name one dealer. Undoing a
-- change relies on it, since it settles with the dealer that the before-image names.
use electro_mart_backend.Prelude.{
  ℕ, ◌≡◌, true, Option, none, some, [], ◌∷◌, arith, Bool-cases, inl, inr, if◌then◌else◌, leb,
}
use electro_mart_backend.Rows.{Invoice, Payment, PaymentRevision, Snapshot, of_payment, absent}
use electro_mart_backend.Table.{Table}
use electro_mart_backend.Store.{Store}
use electro_mart_backend.Payments.Revisions.{latest_change, can_undo}
use electro_mart_backend.Table.Predicates.{AllRows}

abbrev pub IsOf : ℕ → Snapshot → Type 0
IsOf d (of_payment p _) = p.dealer_id ≡ d
IsOf d absent = Unit

module _ (owner holder : ℕ → ℕ) where
  abbrev pub OwnsPayment : ℕ → Payment → Type 0
  OwnsPayment id p = p.dealer_id ≡ owner id

  abbrev pub OwnsRevision : ℕ → PaymentRevision → Type 0
  OwnsRevision _ r = IsOf (owner r.payment_id) r.snapshot

  abbrev pub HoldsInvoice : ℕ → Invoice → Type 0
  HoldsInvoice id i = i.dealer_id ≡ holder id

  -- Every payment and every before-image belongs to the dealer that `owner` gives its id, and every
  -- invoice to the one that `holder` gives its id.
  abbrev pub IsOwned : Store → Type 0
  IsOwned s =
      AllRows OwnsPayment s.payments
      × AllRows OwnsRevision s.revisions
      × AllRows HoldsInvoice s.invoices

module _ (P : ℕ → PaymentRevision → Type 0) (id : ℕ) where
  -- What a found change is.
  abbrev IsFound : Option (ℕ × PaymentRevision) → Type 0
  IsFound none = Unit
  IsFound (some (rid, r)) = P rid r × (r.payment_id ≡ id)

  newer-IsFound :
      (j : ℕ) (q : PaymentRevision) (rest : Option (ℕ × PaymentRevision))
      → P j q
      → can_undo id q ≡ true
      → IsFound rest
      → IsFound (elim rest [
        | none ↦ some (j, q)
        | some (other, r) ↦ if leb r.created_at q.created_at then some (j, q) else some (other, r)
      ])
  unfolding can_undo
  newer-IsFound j q none p c f = (p, ground arith)
  newer-IsFound j q (some (other, r)) p c f = elim (Bool-cases (leb r.created_at q.created_at)) [
    | inl newer ↦ rw newer (p, ground arith)
    | inr older ↦ rw older f
  ]

  latest_change-IsFound : (t : Table PaymentRevision) → AllRows P t → IsFound (latest_change id t)
  unfolding latest_change
  latest_change-IsFound [] a = tt
  latest_change-IsFound ((j, q) ∷ t) (p, ps) =
      let rest = latest_change-IsFound t ps in
      elim (Bool-cases (can_undo id q)) [
        | inl undoable ↦ rw undoable (newer-IsFound j q (latest_change id t) p undoable rest)
        | inr skipped ↦ rw skipped rest
      ]

  -- The newest change of a payment is a row of the table, and is of that payment.
  pub latest_change-row :
      (t : Table PaymentRevision) (rid : ℕ) (r : PaymentRevision)
      → AllRows P t
      → latest_change id t ≡ some (rid, r)
      → P rid r × (r.payment_id ≡ id)
  latest_change-row t rid r a e = rw e at (latest_change-IsFound t a)
