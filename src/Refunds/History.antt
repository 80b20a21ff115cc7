-- ===== src/Refunds/History.antt =====
-- The requests to RefundsService, each in its own transaction.
use electro_mart_backend.Prelude.{ℕ, Bool, Option}
use electro_mart_backend.Cheques.{ChequeStatus}
use electro_mart_backend.Rows.{RefundParty}
use electro_mart_backend.Store.{Store, Env, M}
use electro_mart_backend.Store.After.{After}
use electro_mart_backend.Ledger.{IsBalanced}
use electro_mart_backend.Refunds.Form.{RefundForm}
use electro_mart_backend.Refunds.Changes.{create, edit, update_cheque_status, cancel, restore}
use electro_mart_backend.Refunds.Consistency.{
  create-IsBalanced, edit-IsBalanced, update_cheque_status-IsBalanced, cancel-IsBalanced,
  restore-IsBalanced,
}

-- The routes of refunds.controller.ts that write.
pub data RefundRequest : Type 0 where
  create_refund : RefundForm → RefundParty → Option ℕ → Option ℕ → Bool → RefundRequest
  edit_refund : ℕ → RefundForm → RefundRequest
  set_refund_status : ℕ → ChequeStatus → RefundRequest
  cancel_refund restore_refund : ℕ → RefundRequest

unfoldable pub handle_refund : RefundRequest → Env → M (Unit {0})
handle_refund (create_refund form party dealer_id supplier_id confirm) env =
    create form party dealer_id supplier_id confirm env
handle_refund (edit_refund id form) env = edit id form env
handle_refund (set_refund_status id status) env = update_cheque_status id status env
handle_refund (cancel_refund id) env = cancel id env
handle_refund (restore_refund id) env = restore id env

-- A refund request that commits leaves every dealer's stored balance what the rows say, if it was so
-- before: a new, edited, cancelled or restored refund and a change of its cheque's status each move
-- the balance by what the refund then counts for more.
pub handle_refund-IsBalanced :
    (q : RefundRequest) (env : Env) (s : Store)
    → IsBalanced s
    → After (handle_refund q env s) (λ _ t. IsBalanced t)
unfolding handle_refund
handle_refund-IsBalanced (create_refund form party dealer_id supplier_id confirm) env s b =
    create-IsBalanced form party dealer_id supplier_id confirm env s b
handle_refund-IsBalanced (edit_refund id form) env s b = edit-IsBalanced id form env s b
handle_refund-IsBalanced (set_refund_status id status) env s b =
    update_cheque_status-IsBalanced id status env s b
handle_refund-IsBalanced (cancel_refund id) env s b = cancel-IsBalanced id env s b
handle_refund-IsBalanced (restore_refund id) env s b = restore-IsBalanced id env s b
