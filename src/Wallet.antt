-- ===== src/Wallet.antt =====
-- src/common/utils/dealer-wallet.ts: a dealer's wallet, computed from the rows. The two queries are
-- SQL texts of the source; a `NOT (mode = 'CHEQUE' AND status = ...)` of them drops a cheque whose
-- status is NULL, as SQL's three-valued logic does.
pub mod Totals
use electro_mart_backend.Prelude.{
  ℕ, Bool, true, false, not, ◌&&◌, Option, none, some, List, [], ◌∷◌, ◌++◌, ◌==◌, same_id,
  if◌then◌else◌, is_some,
}
use electro_mart_backend.Prelude.Int.{ℤ, pos, ◌+ℤ◌, ◌-ℤ◌, gtb_ℤ, ltb_ℤ, eqb_ℤ, max_ℤ, min_ℤ}
use electro_mart_backend.Result.{wallet_overdrawn}
use electro_mart_backend.Cheques.{PaymentMode, cheque, ChequeStatus, cleared, returned}
use electro_mart_backend.Rows.{Invoice, RefundParty}
use electro_mart_backend.Table.{Table}
use electro_mart_backend.Table.Sums.{sum_where}
use electro_mart_backend.Store.{Store, M, gets, guard, ◌>>=◌}
use electro_mart_backend.Invoicing.{compute_returned_amount, compute_credit_used}

pub record WalletInvoice : Type 0 where
  pub net : ℤ
  pub paid : ℤ
  pub settled : ℤ
  pub credit : ℤ

pub record WalletSource : Type 0 where
  pub invoice_id : ℕ
  pub excess : ℤ
  pub pending : ℤ

pub record DealerWallet : Type 0 where
  pub balance : ℤ
  pub available : ℤ
  pub pending : ℤ
  pub sources : List WalletSource
  pub standalone : ℤ
  pub used : ℤ
  pub refunded : ℤ
  pub invoices : Table WalletInvoice

abbrev pub max0 : ℤ → ℤ
max0 d = max_ℤ (pos 0) d

-- `NOT (mode = 'CHEQUE' AND "chequeStatus" = 'RETURNED')` in a WHERE clause.
unfoldable pub sql_effective : PaymentMode → Option ChequeStatus → Bool
sql_effective cheque none = false
sql_effective cheque (some returned) = false
sql_effective _ _ = true

-- `NOT (mode = 'CHEQUE' AND "chequeStatus" IN ('RETURNED', 'PENDING'))`
unfoldable pub sql_settled : PaymentMode → Option ChequeStatus → Bool
sql_settled cheque (some cleared) = true
sql_settled cheque _ = false
sql_settled _ _ = true

-- A row of the first query.
pub record WalletRow : Type 0 where
  pub net : ℤ
  pub paid : ℤ
  pub settled : ℤ
  pub credit : ℤ

unfoldable pub wallet_row : ℕ → Invoice → Store → WalletRow
unfolding sql_effective sql_settled compute_returned_amount compute_credit_used
wallet_row id i s = record {
  net = i.grand_total -ℤ compute_returned_amount i.order_id s;
  paid =
      sum_where (λ p. same_id p.invoice_id (some id) && sql_effective p.mode p.cheque_status)
        (λ p. p.amount) s.payments;
  settled =
      sum_where (λ p. same_id p.invoice_id (some id) && sql_settled p.mode p.cheque_status)
        (λ p. p.amount) s.payments;
  credit = compute_credit_used id s;
}

unfoldable pub wallet_rows : ℕ → Store → Table Invoice → Table WalletRow
wallet_rows dealer_id s [] = []
wallet_rows dealer_id s ((id, i) ∷ t) =
    if i.dealer_id == dealer_id
    then (id, wallet_row id i s) ∷ wallet_rows dealer_id s t
    else wallet_rows dealer_id s t

-- The three columns of the second query.
unfoldable pub standalone_paid : ℕ → Store → ℤ
unfolding sql_effective
standalone_paid dealer_id s =
    sum_where
      (λ p.
        p.dealer_id == dealer_id
        && not (is_some p.invoice_id)
        && sql_effective p.mode p.cheque_status)
      (λ p. p.amount) s.payments

unfoldable pub standalone_settled : ℕ → Store → ℤ
unfolding sql_settled
standalone_settled dealer_id s =
    sum_where
      (λ p.
        p.dealer_id == dealer_id
        && not (is_some p.invoice_id)
        && sql_settled p.mode p.cheque_status)
      (λ p. p.amount) s.payments

abbrev pub is_dealer_party : RefundParty → Bool
is_dealer_party RefundParty.dealer = true
is_dealer_party RefundParty.supplier = false

unfoldable pub refunded_total : ℕ → Store → ℤ
unfolding sql_effective
refunded_total dealer_id s =
    sum_where
      (λ r.
        same_id r.dealer_id (some dealer_id)
        && is_dealer_party r.party
        && not (is_some r.cancelled_at)
        && sql_effective r.mode r.cheque_status)
      (λ r. r.amount) s.refunds

-- The variables of the loop over the rows.
pub record WalletLoop : Type 0 where
  pub excess_all : ℤ
  pub excess_settled : ℤ
  pub used : ℤ
  pub sources : List WalletSource
  pub invoices : Table WalletInvoice

abbrev pub wallet_start : WalletLoop
wallet_start = record {
  excess_all = pos 0;
  excess_settled = pos 0;
  used = pos 0;
  sources = [];
  invoices = [];
}

-- One round of the loop.
unfoldable pub wallet_step : WalletLoop → ℕ → WalletRow → WalletLoop
wallet_step l id row =
    let paid = row.paid +ℤ row.credit in
    let settled = row.settled +ℤ row.credit in
    let excess = max0 (paid -ℤ row.net) in
    let settled_excess = max0 (settled -ℤ row.net) in
    record {
      excess_all = l.excess_all +ℤ excess;
      excess_settled = l.excess_settled +ℤ settled_excess;
      used = l.used +ℤ row.credit;
      sources =
          if gtb_ℤ excess (pos 0)
          then l.sources
            ++ (record { invoice_id = id; excess = excess; pending = excess -ℤ settled_excess }
                ∷ [])
          else l.sources;
      invoices =
          l.invoices
          ++ ((id, record { net = row.net; paid = paid; settled = settled; credit = row.credit })
              ∷ []);
    }

unfoldable pub wallet_loop : WalletLoop → Table WalletRow → WalletLoop
unfolding wallet_step
wallet_loop l [] = l
wallet_loop l ((id, row) ∷ rows) = wallet_loop (wallet_step l id row) rows

unfoldable pub compute_dealer_wallet : ℕ → Store → DealerWallet
unfolding wallet_rows wallet_loop standalone_paid standalone_settled refunded_total
compute_dealer_wallet dealer_id s =
    let l = wallet_loop wallet_start (wallet_rows dealer_id s s.invoices) in
    let standalone = standalone_paid dealer_id s in
    let refunded = refunded_total dealer_id s in
    let balance = l.excess_all +ℤ standalone -ℤ l.used -ℤ refunded in
    let spendable = l.excess_settled +ℤ standalone_settled dealer_id s -ℤ l.used -ℤ refunded in
    let available = max0 (min_ℤ balance spendable) in
    record {
      balance = balance;
      available = available;
      pending = max0 (balance -ℤ available);
      sources = l.sources;
      standalone = standalone;
      used = l.used;
      refunded = refunded;
      invoices = l.invoices;
    }

-- Does the wallet pass the test of `assertWalletNotOverdrawn`?
unfoldable pub is_overdrawn : ℕ → Store → Bool
unfolding compute_dealer_wallet
is_overdrawn dealer_id s =
    let wallet = compute_dealer_wallet dealer_id s in
    not (eqb_ℤ wallet.used (pos 0)) && ltb_ℤ wallet.balance (pos 0)

unfoldable pub assert_wallet_not_overdrawn : ℕ → M (Unit {0})
unfolding is_overdrawn
assert_wallet_not_overdrawn dealer_id = do
  overdrawn ← gets (is_overdrawn dealer_id)
  guard (not overdrawn) wallet_overdrawn
