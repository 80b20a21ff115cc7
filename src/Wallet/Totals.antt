-- ===== src/Wallet/Totals.antt =====
-- `totalDealerWallets` of src/common/utils/dealer-wallet.ts: the wallets of all dealers in one query,
-- with `inv` and `wallet` its two common table expressions.
use electro_mart_backend.Prelude.{
  ◌∙◌, ℕ, ◌≡◌, refl, [], ◌∷◌, ◌+◌, ◌==◌, if◌then◌else◌, some, none, arith, ==→eq,
}
use electro_mart_backend.Prelude.Int.{max_ℤ, ℤ, pos, ◌+ℤ◌, ◌-ℤ◌, gtb_ℤ, int_laws}
use electro_mart_backend.Rows.{Invoice, Dealer, CreditUse}
use electro_mart_backend.Table.{Table, lookup}
use electro_mart_backend.Table.Sums.{total, sum_where}
use electro_mart_backend.Store.{Store}
use electro_mart_backend.Invoicing.{compute_credit_used}
use electro_mart_backend.Wallet.{
  compute_credit_used, max0, wallet_row, wallet_rows, WalletLoop, wallet_loop, wallet_step,
  wallet_start, standalone_paid, refunded_total, compute_dealer_wallet,
}

-- `excess` of a row of `inv`
unfoldable pub invoice_excess : ℕ → Invoice → Store → ℤ
unfolding wallet_row
invoice_excess id i s = let row = wallet_row id i s in max0 (row.paid +ℤ row.credit -ℤ row.net)

-- `balance` of a row of `wallet`
unfoldable pub wallet_balance : ℕ → Store → ℤ
unfolding invoice_excess standalone_paid refunded_total
wallet_balance dealer_id s =
    total (λ id i. if i.dealer_id == dealer_id then invoice_excess id i s else pos 0) s.invoices
    +ℤ standalone_paid dealer_id s
    -ℤ sum_where (λ u. u.dealer_id == dealer_id) (λ u. u.amount) s.credit_uses
    -ℤ refunded_total dealer_id s

pub record WalletTotal : Type 0 where
  pub total_held : ℤ
  pub dealers : ℕ

unfoldable pub count_positive : Table Dealer → Store → ℕ
unfolding wallet_balance
count_positive [] s = 0
count_positive ((id, _) ∷ t) s =
    (if gtb_ℤ (wallet_balance id s) (pos 0) then 1 else 0) + count_positive t s

-- `SUM(balance) FILTER (WHERE balance > 0)` and `COUNT(*) FILTER (WHERE balance > 0)`
unfoldable pub total_dealer_wallets : Store → WalletTotal
unfolding wallet_balance count_positive
total_dealer_wallets s = record {
  total_held =
      total (λ id _. if gtb_ℤ (wallet_balance id s) (pos 0) then wallet_balance id s else pos 0)
        s.dealers;
  dealers = count_positive s.dealers s;
}

wallet_loop-excess :
    (dealer_id : ℕ) (s : Store) (t : Table Invoice) (l : WalletLoop)
    → (wallet_loop l (wallet_rows dealer_id s t)).excess_all
      ≡ l.excess_all
        +ℤ total (λ id i. if i.dealer_id == dealer_id then invoice_excess id i s else pos 0) t
unfolding wallet_loop wallet_rows wallet_step total invoice_excess
wallet_loop-excess d s [] l = omega int_laws
wallet_loop-excess d s ((id, i) ∷ t) l = grind (
  int_laws,
  wallet_loop-excess d s t l,
  wallet_loop-excess d s t (wallet_step l id (wallet_row id i s)),
)

wallet_loop-used :
    (dealer_id : ℕ) (s : Store) (t : Table Invoice) (l : WalletLoop)
    → (wallet_loop l (wallet_rows dealer_id s t)).used
      ≡ l.used
        +ℤ total (λ id i. if i.dealer_id == dealer_id then (wallet_row id i s).credit else pos 0) t
unfolding wallet_loop wallet_rows wallet_step total
wallet_loop-used d s [] l = omega int_laws
wallet_loop-used d s ((id, i) ∷ t) l = grind (
  int_laws,
  wallet_loop-used d s t l,
  wallet_loop-used d s t (wallet_step l id (wallet_row id i s)),
)

-- Every use of credit is on an invoice of the dealer it is booked to.
abbrev pub IsCreditOwned : Table Invoice → Table CreditUse → Type 0
IsCreditOwned invoices [] = Unit {0}
IsCreditOwned invoices ((_, u) ∷ uses) =
    ((i : Invoice) × (lookup u.invoice_id invoices ≡ some i) × (i.dealer_id ≡ u.dealer_id))
    × IsCreditOwned invoices uses

-- No two invoices have one id.
abbrev pub HasOneRowEach : Table Invoice → Type 0
HasOneRowEach [] = Unit {0}
HasOneRowEach ((id, _) ∷ t) = (lookup id t ≡ none) × HasOneRowEach t

no_row :
    (f : Invoice → ℤ) (k : ℕ) (t : Table Invoice)
    → lookup k t ≡ none
    → total (λ id i. if k == id then f i else pos 0) t ≡ pos 0
unfolding total lookup
no_row f k [] h = refl
no_row f k ((id, i) ∷ t) h = grind (int_laws, no_row f k t)

one_row :
    (f : Invoice → ℤ) (k : ℕ) (i : Invoice) (t : Table Invoice)
    → HasOneRowEach t
    → lookup k t ≡ some i
    → total (λ id j. if k == id then f j else pos 0) t ≡ f i
unfolding total lookup
one_row f k i [] once h = cc
one_row f k i ((id, j) ∷ t) (fresh, once) h =
    grind (int_laws, one_row f k i t once, no_row f k t, ==→eq k id)

-- One use of credit among the invoices of a dealer.
split_use :
    (d k : ℕ) (a : ℤ) (g : ℕ → ℤ) (t : Table Invoice)
    → total (λ id i. if i.dealer_id == d then (if k == id then a else pos 0) +ℤ g id else pos 0) t
      ≡ total (λ id i. if k == id then (if i.dealer_id == d then a else pos 0) else pos 0) t
        +ℤ total (λ id i. if i.dealer_id == d then g id else pos 0) t
unfolding total
split_use d k a g [] = omega int_laws
split_use d k a g ((id, i) ∷ t) = grind (int_laws, split_use d k a g t)

no_uses :
    (d : ℕ) (t : Table Invoice) → total (λ _ i. if i.dealer_id == d then pos 0 else pos 0) t ≡ pos 0
unfolding total
no_uses d [] = refl
no_uses d ((id, i) ∷ t) = grind (int_laws, no_uses d t)

-- The credit used on a dealer's invoices is the credit booked to the dealer.
credit_by_invoice :
    (d : ℕ) (invoices : Table Invoice) (uses : Table CreditUse)
    → HasOneRowEach invoices
    → IsCreditOwned invoices uses
    → total
        (λ id i.
          if i.dealer_id == d
          then sum_where (λ u. u.invoice_id == id) (λ u. u.amount) uses
          else pos 0)
        invoices
      ≡ sum_where (λ u. u.dealer_id == d) (λ u. u.amount) uses
unfolding total
credit_by_invoice d invoices [] once owned = no_uses d invoices
credit_by_invoice d invoices ((_, u) ∷ uses) once ((i, found, same), owned) =
    split_use d u.invoice_id u.amount
      (λ id. sum_where (λ v. v.invoice_id == id) (λ v. v.amount) uses) invoices
    ∙ rw (
      one_row (λ j. if j.dealer_id == d then u.amount else pos 0) u.invoice_id i invoices once
          found,
      credit_by_invoice d invoices uses once owned,
      same,
    )

-- The balance that the one query computes for a dealer is `computeDealerWallet`'s.
pub wallet_balance_lem :
    (dealer_id : ℕ) (s : Store)
    → HasOneRowEach s.invoices
    → IsCreditOwned s.invoices s.credit_uses
    → wallet_balance dealer_id s ≡ (compute_dealer_wallet dealer_id s).balance
unfolding wallet_balance compute_dealer_wallet wallet_row compute_credit_used
wallet_balance_lem d s once owned =
    rw
      (
        wallet_loop-excess d s s.invoices wallet_start,
        wallet_loop-used d s s.invoices wallet_start,
        credit_by_invoice d s.invoices s.credit_uses once owned,
      )
      (omega int_laws)

-- How many dealers have money in their wallet.
unfoldable pub holders : Table Dealer → Store → ℕ
holders [] s = 0
holders ((id, _) ∷ t) s =
    if gtb_ℤ (compute_dealer_wallet id s).balance (pos 0) then 1 + holders t s else holders t s

positive_part : (b c : ℤ) → b ≡ c → (if gtb_ℤ b (pos 0) then b else pos 0) ≡ max0 c
unfolding max_ℤ
positive_part b c same = rw same (ground arith)

held_lem :
    (s : Store)
    → HasOneRowEach s.invoices
    → IsCreditOwned s.invoices s.credit_uses
    → (t : Table Dealer)
    → total (λ id _. if gtb_ℤ (wallet_balance id s) (pos 0) then wallet_balance id s else pos 0) t
      ≡ total (λ id _. max0 (compute_dealer_wallet id s).balance) t
unfolding total
held_lem s once owned [] = refl
held_lem s once owned ((id, _) ∷ t) =
    rw (positive_part _ _ (wallet_balance_lem id s once owned), held_lem s once owned t) refl

count_lem :
    (s : Store)
    → HasOneRowEach s.invoices
    → IsCreditOwned s.invoices s.credit_uses
    → (t : Table Dealer) → count_positive t s ≡ holders t s
unfolding count_positive holders
count_lem s once owned [] = refl
count_lem s once owned ((id, _) ∷ t) =
    rw (wallet_balance_lem id s once owned, count_lem s once owned t) (ground arith)

-- The query over all dealers agrees with the wallets computed one by one: it reports the sum of the
-- dealers' balances, each as zero where it is negative, and how many are positive, if no two invoices
-- have one id and every use of credit is on an invoice of its dealer.
pub total_dealer_wallets-wallets :
    (s : Store)
    → HasOneRowEach s.invoices
    → IsCreditOwned s.invoices s.credit_uses
    → ((total_dealer_wallets s).total_held
        ≡ total (λ id _. max0 (compute_dealer_wallet id s).balance) s.dealers)
      × ((total_dealer_wallets s).dealers ≡ holders s.dealers s)
unfolding total_dealer_wallets
total_dealer_wallets-wallets s once owned =
    (held_lem s once owned s.dealers, count_lem s once owned s.dealers)
