-- ===== src/Commission/Once.antt =====
-- A settlement is paid at most once.
use electro_mart_backend.Prelude.{refl, arith, true, ◌⊎◌, false, some, Bool-cases, inl, inr, ◌≡◌, ℕ}
use electro_mart_backend.Commission.Settlements.{
  has_pending_cheque, require_details, paid_settlement, create_settlement_expense, payment_recorded,
  pay, PayForm,
}
use electro_mart_backend.Store.{pure, lift, guard, log, Env, or_throw, Store}
use electro_mart_backend.Rows.Commission.{SettlementStatus, RepSettlement}
use electro_mart_backend.Result.{
  settlement_cheque_pending, wrong_settlement_status, check_cases, err, Error,
}
use electro_mart_backend.Store.After.{
  if_After, next-After, done, After-mono, read-After, lift-After, guard-After, or_throw-After,
  After,
}
use electro_mart_backend.Table.{update, lookup-update_self, lookup}
use electro_mart_backend.Commission.Lines.{same_settlement_status}
use electro_mart_backend.Commission.Reads.{check_lines-Reads}
use electro_mart_backend.Cheques.{is_cheque}

-- The row of a settlement that cannot be paid: it is not approved, or a cheque for it is pending.
abbrev IsUnpayable : ℕ → Store → Type 0
IsUnpayable id s =
    (x : RepSettlement) × (lookup id s.rep_settlements ≡ some x)
    × ((same_settlement_status x.status SettlementStatus.approved ≡ false)
        ⊎ (has_pending_cheque x ≡ true))

unpayable-refused :
    (id : ℕ) (form : PayForm) (env : Env) (s : Store)
    → IsUnpayable id s
    → (e : Error) × (pay id form env s ≡ err e)
unfolding pay or_throw guard lift
unpayable-refused id form env s (x, found, why) = elim (check_cases (require_details form)) [
  | inr (e, wrong) ↦ (e, rw (found, wrong) refl)
  | inl fine ↦ elim (Bool-cases (same_settlement_status x.status SettlementStatus.approved)) [
    | inr closed ↦ (wrong_settlement_status, rw (found, fine, closed) refl)
    | inl open_ ↦
        let cheque_ : has_pending_cheque x ≡ true = ground arith in
        (settlement_cheque_pending, rw (found, fine, open_, cheque_) refl)
  ]
]

bought-IsUnpayable :
    (id : ℕ) (env : Env) (s : Store)
    → After (create_settlement_expense id env s) (λ _ t. IsUnpayable id t)
unfolding create_settlement_expense paid_settlement
bought-IsUnpayable id env s = or_throw-After _ _ s _ (λ t found. or_throw-After _ _ s _ (λ _ _.
    guard-After _ _ _ _ (λ _. done (
      paid_settlement t env.new_id env.now,
      lookup-update_self id (paid_settlement t env.new_id env.now) t s.rep_settlements found,
      inl refl,
    ))))

cheque-IsUnpayable :
    (id : ℕ) (t : RepSettlement) (form : PayForm) (s : Store)
    → lookup id s.rep_settlements ≡ some t
    → is_cheque form.mode ≡ true
    → IsUnpayable id
        (record s { rep_settlements = update id (payment_recorded t form) s.rep_settlements })
unfolding payment_recorded
cheque-IsUnpayable id t form s found written = (
  payment_recorded t form,
  lookup-update_self id (payment_recorded t form) t s.rep_settlements found,
  inr (rw written refl),
)

pay-IsUnpayable :
    (id : ℕ) (form : PayForm) (env : Env) (s : Store)
    → After (pay id form env s) (λ _ t. IsUnpayable id t)
unfolding pay log
pay-IsUnpayable id form env s = or_throw-After _ _ s _ (λ t found. lift-After _ s _ (λ _ _.
    guard-After _ _ s _ (λ _. guard-After _ _ s _ (λ _.
      read-After _ (check_lines-Reads id t s) (λ _ _.
        next-After
          (if_After (is_cheque form.mode) (pure tt) (create_settlement_expense id env) _
            (λ written. done (cheque-IsUnpayable id t form s found written))
            (λ _. bought-IsUnpayable id env _))
          (λ _ _ still. done still))))))

-- After a payment of a settlement that commits, in cash, by transfer or by a cheque that is not yet
-- cleared, any other payment of it is refused.
pub pay-refused :
    (id : ℕ) (form again : PayForm) (env later : Env) (s : Store)
    → After (pay id form env s) (λ _ t. (e : Error) × (pay id again later t ≡ err e))
pay-refused id form again env later s =
    After-mono (λ _ t. unpayable-refused id again later t) (pay-IsUnpayable id form env s)
