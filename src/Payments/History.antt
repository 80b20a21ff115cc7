-- ===== src/Payments/History.antt =====
-- Histories: any sequence of requests to PaymentsService, each in its own transaction. A request that
-- throws is rolled back, and the next one finds the state from before it.
use electro_mart_backend.Prelude.{ℕ, ◌≡◌, refl, Bool, Option, List, [], ◌∷◌, All}
use electro_mart_backend.Result.{Result, ok, err}
use electro_mart_backend.Cheques.{ChequeStatus}
use electro_mart_backend.Store.{Store, Env, M}
use electro_mart_backend.Store.After.{After, After-ok}
use electro_mart_backend.Payments.Form.{PaymentForm}
use electro_mart_backend.Payments.Changes.{create, edit, remove, update_cheque_status}
use electro_mart_backend.Payments.Undo.{undo_last}
use electro_mart_backend.Payments.Consistency.{
  IsConsistent, edit-IsConsistent, update_cheque_status-IsConsistent, remove-IsConsistent,
  create-IsConsistent,
}
use electro_mart_backend.Payments.Undoing.{undo_last-IsConsistent}

-- The routes of payments.controller.ts that write.
pub data Request : Type 0 where
  create_payment : PaymentForm → ℕ → Bool → Request
  edit_payment : ℕ → PaymentForm → Request
  remove_payment : ℕ → Request
  set_cheque_status : ℕ → ChequeStatus → Bool → Request
  undo_payment : ℕ → Option ℕ → Request

unfoldable pub handle : Request → Env → M (Unit {0})
handle (create_payment form invoice_id confirm) env = create form invoice_id confirm env
handle (edit_payment id form) env = edit id form env
handle (remove_payment id) env = remove id env
handle (set_cheque_status id status excess) env = update_cheque_status id status excess env
handle (undo_payment id expected) env = undo_last id expected env

-- The state after a transaction, committed or rolled back.
abbrev pub state_after : {A : Type 0} → Store → Result (A × Store) → Store
state_after s (ok (_, t)) = t
state_after s (err _) = s

unfoldable pub run : List (Request × Env) → Store → Store
unfolding handle
run [] s = s
run ((q, env) ∷ rest) s = run rest (state_after s (handle q env s))

module _ (owner holder : ℕ → ℕ) where
  -- The id that the database gives to a new payment is one whose owner is the invoice's dealer: it
  -- has no history under another.
  abbrev pub Suits : Request × Env → Type 0
  Suits (create_payment form invoice_id confirm, env) = holder invoice_id ≡ owner env.new_id
  Suits _ = Unit

  -- One request keeps the ledger balanced and every payment with its dealer.
  pub handle-IsConsistent :
      (q : Request) (env : Env) (s : Store)
      → Suits (q, env)
      → IsConsistent owner holder s
      → After (handle q env s) (λ _ t. IsConsistent owner holder t)
  unfolding handle
  handle-IsConsistent (create_payment form invoice_id confirm) env s own c =
      create-IsConsistent owner holder form invoice_id confirm env s c own
  handle-IsConsistent (edit_payment id form) env s own c =
      edit-IsConsistent owner holder id form env s c
  handle-IsConsistent (remove_payment id) env s own c = remove-IsConsistent owner holder id env s c
  handle-IsConsistent (set_cheque_status id status excess) env s own c =
      update_cheque_status-IsConsistent owner holder id status excess env s c
  handle-IsConsistent (undo_payment id expected) env s own c =
      undo_last-IsConsistent owner holder id expected env s c

  state_after-IsConsistent :
      (s : Store) (r : Result (Unit {0} × Store))
      → IsConsistent owner holder s
      → After r (λ _ t. IsConsistent owner holder t)
      → IsConsistent owner holder (state_after s r)
  state_after-IsConsistent s (ok (u, t)) c a = After-ok a refl
  state_after-IsConsistent s (err e) c a = c

  -- After any history of payment requests, of which some commit and some are rolled back, every
  -- dealer's stored balance is still what the rows say, and every payment, every before-image and
  -- every invoice still belongs to its dealer, if that was so at the start and each new payment's id
  -- is one that belongs to its invoice's dealer.
  pub run-IsConsistent :
      (qs : List (Request × Env)) (s : Store)
      → All Suits qs
      → IsConsistent owner holder s
      → IsConsistent owner holder (run qs s)
  unfolding run
  run-IsConsistent [] s own c = c
  run-IsConsistent ((q, env) ∷ qs) s (own, owns) c =
      run-IsConsistent qs (state_after s (handle q env s)) owns
        (state_after-IsConsistent s (handle q env s) c (handle-IsConsistent q env s own c))
