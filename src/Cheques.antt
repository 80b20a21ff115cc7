-- ===== src/Cheques.antt =====
-- src/common/utils/cheque-transitions.ts: the cheque statuses, the kinds of cheque, and which change
-- of status each kind allows. `PaymentMode` and `ChequeStatus` are enums of prisma/schema.prisma.
pub mod Lifecycle
use electro_mart_backend.Prelude.{
  ℕ, ◌-◌, ◌*◌, Bool, true, false, not, ◌||◌, ◌&&◌, Option, none, some, List, [], ◌∷◌, ltb,
  if◌then◌else◌, any,
}
use electro_mart_backend.Result.{
  Result, ok, err, no_cheque_status, already_in_status, illegal_transition, revert_window_over,
}

pub data PaymentMode : Type 0 where
  cash cheque bank_transfer : PaymentMode

pub data ChequeStatus : Type 0 where
  pending cleared returned : ChequeStatus

pub data ChequeKind : Type 0 where
  dealer supplier settlement refund_received refund_paid investment : ChequeKind

-- `mode === 'CHEQUE'`
abbrev pub is_cheque : PaymentMode → Bool
is_cheque cheque = true
is_cheque _ = false

abbrev pub same_mode : PaymentMode → PaymentMode → Bool
same_mode cash cash = true
same_mode cheque cheque = true
same_mode bank_transfer bank_transfer = true
same_mode _ _ = false

abbrev pub same_status : ChequeStatus → ChequeStatus → Bool
same_status pending pending = true
same_status cleared cleared = true
same_status returned returned = true
same_status _ _ = false

unfoldable pub cheque_transitions : ChequeKind → ChequeStatus → List ChequeStatus
cheque_transitions dealer pending = cleared ∷ returned ∷ []
cheque_transitions dealer cleared = returned ∷ pending ∷ []
cheque_transitions dealer returned = pending ∷ cleared ∷ []
cheque_transitions supplier pending = cleared ∷ returned ∷ []
cheque_transitions supplier cleared = pending ∷ []
cheque_transitions supplier returned = pending ∷ []
cheque_transitions investment pending = cleared ∷ returned ∷ []
cheque_transitions investment cleared = pending ∷ []
cheque_transitions investment returned = pending ∷ []
cheque_transitions settlement pending = cleared ∷ returned ∷ []
cheque_transitions settlement cleared = []
cheque_transitions settlement returned = []
cheque_transitions refund_received pending = cleared ∷ returned ∷ []
cheque_transitions refund_received cleared = returned ∷ pending ∷ []
cheque_transitions refund_received returned = pending ∷ cleared ∷ []
cheque_transitions refund_paid pending = cleared ∷ returned ∷ []
cheque_transitions refund_paid cleared = pending ∷ []
cheque_transitions refund_paid returned = pending ∷ []

abbrev pub revert_window : ℕ
revert_window = 24 * 60 * 60 * 1000

-- The window within which this kind may go back to `pending`, in milliseconds.
unfoldable pub revert_window_ms : ChequeKind → Option ℕ
revert_window_ms supplier = some revert_window
revert_window_ms investment = some revert_window
revert_window_ms refund_paid = some revert_window
revert_window_ms _ = none

-- The last test of `assertChequeTransition`: is `to` a revert that comes too late? A clock behind the
-- stored time gives a negative difference in the source, which is no late revert here either.
unfoldable pub reverts_late : ChequeKind → ChequeStatus → Option ℕ → ℕ → Bool
unfolding revert_window_ms
reverts_late kind to changed_at now = elim (revert_window_ms kind) [
  | none ↦ false
  | some window ↦
      same_status to pending && elim changed_at [ none ↦ true | some at ↦ ltb window (now - at) ]
]

-- `from` is null for a row that is no cheque.
unfoldable pub assert_cheque_transition :
    ChequeKind → Option ChequeStatus → ChequeStatus → Option ℕ → ℕ → Result (Unit {0})
unfolding cheque_transitions reverts_late
assert_cheque_transition kind none to changed_at now = err no_cheque_status
assert_cheque_transition kind (some from) to changed_at now =
    if same_status from to
    then err already_in_status
    else if not (any (same_status to) (cheque_transitions kind from))
    then err illegal_transition
    else if reverts_late kind to changed_at now
    then err revert_window_over
    else ok tt
