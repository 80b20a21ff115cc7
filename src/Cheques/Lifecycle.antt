-- ===== src/Cheques/Lifecycle.antt =====
-- What the table of transitions allows, kind by kind. Section 4 of docs/LIQUID_CASH_ACCOUNTING_CONTRACT.md
-- says of refund cheques that they are final once decided, which the code and its own comment do not.
use electro_mart_backend.Prelude.{◌↔◌, ℕ, ◌+◌, ◌≤◌, ◌≡◌, ◌≢◌, refl, Option, some, arith}
use electro_mart_backend.Result.{ok}
use electro_mart_backend.Cheques.{
  ChequeStatus, pending, cleared, returned, ChequeKind, dealer, supplier, settlement,
  refund_received, refund_paid, investment, revert_window, assert_cheque_transition,
}

-- Kinds of money that comes in: the bank may reverse or re-present these at any time.
abbrev pub IsIncoming : ChequeKind → Type 0
IsIncoming dealer = Unit
IsIncoming refund_received = Unit
IsIncoming _ = ⊥

-- Kinds of cheque that the business wrote itself.
abbrev pub IsOutgoing : ChequeKind → Type 0
IsOutgoing supplier = Unit
IsOutgoing refund_paid = Unit
IsOutgoing investment = Unit
IsOutgoing _ = ⊥

-- When a cheque of this kind may go from one status to another: the rules of the comment in
-- cheque-transitions.ts, as a relation.
pub data Allowed (kind : ChequeKind) (from to : ChequeStatus) (at : Option ℕ) (now : ℕ)
    : Type 0 where
  any_change : IsIncoming kind → from ≢ to → Allowed kind from to at now
  decided : from ≡ pending → to ≢ pending → Allowed kind from to at now
  revert :
      IsOutgoing kind
      → from ≢ pending
      → to ≡ pending
      → (t : ℕ) → at ≡ some t
      → now ≤ t + revert_window
      → Allowed kind from to at now

check-Allowed :
    (kind : ChequeKind) (from to : ChequeStatus) (at : Option ℕ) (now : ℕ)
    → assert_cheque_transition kind (some from) to at now ≡ ok tt
    → Allowed kind from to at now
unfolding assert_cheque_transition
check-Allowed dealer pending to at now h = any_change tt (ground arith)
check-Allowed dealer _ to at now h = any_change tt (ground arith)
check-Allowed refund_received pending to at now h = any_change tt (ground arith)
check-Allowed refund_received _ to at now h = any_change tt (ground arith)
check-Allowed settlement pending to at now h = decided refl (ground arith)
check-Allowed _ pending to at now h = decided refl (ground arith)
check-Allowed settlement cleared to at now h = absurd (ground arith)
check-Allowed settlement returned to at now h = absurd (ground arith)
check-Allowed supplier _ pending (some t) now h =
    revert tt (ground arith) refl t refl (ground arith)
check-Allowed refund_paid _ pending (some t) now h =
    revert tt (ground arith) refl t refl (ground arith)
check-Allowed investment _ pending (some t) now h =
    revert tt (ground arith) refl t refl (ground arith)
check-Allowed _ from to at now h = absurd (ground arith)

Allowed-check :
    (kind : ChequeKind) (from to : ChequeStatus) (at : Option ℕ) (now : ℕ)
    → Allowed kind from to at now
    → assert_cheque_transition kind (some from) to at now ≡ ok tt
unfolding assert_cheque_transition
Allowed-check dealer pending to at now (any_change i ne) = ground arith
Allowed-check dealer _ to at now (any_change i ne) = ground arith
Allowed-check refund_received pending to at now (any_change i ne) = ground arith
Allowed-check refund_received _ to at now (any_change i ne) = ground arith
Allowed-check _ from to at now (any_change i ne) = absurd i
Allowed-check dealer from to at now (decided e ne) = rw e (ground arith)
Allowed-check _ from to at now (decided e ne) = rw e (ground arith)
Allowed-check supplier from to at now (revert i ne e t ea le) = rw (e, ea) (ground arith)
Allowed-check refund_paid from to at now (revert i ne e t ea le) = rw (e, ea) (ground arith)
Allowed-check investment from to at now (revert i ne e t ea le) = rw (e, ea) (ground arith)
Allowed-check _ from to at now (revert i ne e t ea le) = absurd i

-- For every kind of cheque, any two statuses and any clock, the check passes exactly when the rules
-- allow the change: any change of an incoming cheque, a decision on a pending one, or the revert of
-- an outgoing one to pending within a day of its last change.
pub check-iff-Allowed :
    (kind : ChequeKind) (from to : ChequeStatus) (at : Option ℕ) (now : ℕ)
    → (assert_cheque_transition kind (some from) to at now ≡ ok tt) ↔ Allowed kind from to at now
check-iff-Allowed kind from to at now =
    (check-Allowed kind from to at now, Allowed-check kind from to at now)
