-- ===== src/Payments/Keeps.antt =====
-- What the settling of a changed payment leaves alone.
use electro_mart_backend.Prelude.{ℕ, ◌≡◌, refl, Option, Bool-cases, inl, inr}
use electro_mart_backend.Prelude.Int.{ℤ, pos, ◌-ℤ◌, eqb_ℤ}
use electro_mart_backend.Rows.{Dealer, Invoice, Payment}
use electro_mart_backend.Table.Predicates.{AllRows, AllRows-update, AllRows-lookup}
use electro_mart_backend.Store.{Store, increment_balance}
use electro_mart_backend.Store.After.{After, next-After, or_throw-After, done}
use electro_mart_backend.Invoicing.{recompute_invoice_payment_status, current_status}
use electro_mart_backend.Payments.Checks.{effective_amount, settle_financials}

module _ (holder : ℕ → ℕ) where
  -- The payments and the history are as before, and no invoice has changed hands.
  abbrev pub Keeps : Store → Store → Type 0
  Keeps s t =
      (t.payments ≡ s.payments)
      × (t.revisions ≡ s.revisions)
      × AllRows (λ id (i : Invoice). i.dealer_id ≡ holder id) t.invoices

  pub recompute-Keeps :
      (id : ℕ) (s : Store)
      → AllRows (λ k (i : Invoice). i.dealer_id ≡ holder k) s.invoices
      → After (recompute_invoice_payment_status id s) (λ _ t. Keeps s t)
  unfolding recompute_invoice_payment_status
  recompute-Keeps id s h = or_throw-After _ _ _ _ λ (i : Invoice) e. done (
    refl,
    refl,
    AllRows-update _ id (record i { payment_status = current_status i id s }) s.invoices h
        (AllRows-lookup _ id i s.invoices h e),
  )

  pub increment-Keeps :
      (d : ℕ) (delta : ℤ) (s t : Store)
      → Keeps s t
      → After (increment_balance d delta t) (λ _ u. Keeps s u)
  unfolding increment_balance
  increment-Keeps d delta s t k = or_throw-After _ _ _ _ λ (row : Dealer) _. done k

  pub settle-Keeps :
      (id d : ℕ) (before after : Option Payment) (s : Store)
      → AllRows (λ k (i : Invoice). i.dealer_id ≡ holder k) s.invoices
      → After (settle_financials id d before after s) (λ _ t. Keeps s t)
  unfolding settle_financials
  settle-Keeps id d before after s h =
      let delta = effective_amount before -ℤ effective_amount after in
      next-After (recompute-Keeps id s h) λ status t k. elim (Bool-cases (eqb_ℤ delta (pos 0))) [
        | inl zero ↦ rw zero (done k)
        | inr nonzero ↦ rw nonzero (increment-Keeps d delta s t k)
      ]
