-- ===== src/Refunds/Credit.antt =====
-- The credit that a party holds, which caps its refunds, and the other reading steps of the service.
use electro_mart_backend.Prelude.{
  ℕ, Bool, not, ◌&&◌, Option, none, some, ◌==◌, leb, ltb, same_id, if◌then◌else◌, is_some,
}
use electro_mart_backend.Prelude.Int.{ℤ, pos, gtb_ℤ, eqb_ℤ, max_ℤ, min_ℤ, neg_ℤ}
use electro_mart_backend.Result.{
  dealer_not_found, supplier_not_found, purchase_not_found, only_supplier_refunds,
  purchase_of_other_supplier, exceeds_credit,
}
use electro_mart_backend.Cheques.{same_mode}
use electro_mart_backend.Clock.{
  start_of_business_day, start_of_next_business_day, duplicate_window_start,
}
use electro_mart_backend.Rows.{Dealer, Refund, RefundParty}
use electro_mart_backend.Table.{lookup}
use electro_mart_backend.Store.{Store, M, pure, gets, guard, throw, or_throw, ◌>>=◌, ◌>>◌}
use electro_mart_backend.Wallet.{compute_dealer_wallet, is_dealer_party}
use electro_mart_backend.Suppliers.Balance.{compute_supplier_balance}
use electro_mart_backend.Refunds.Form.{RefundForm}

-- `dealerCredit`, once the dealer's row is found.
unfoldable pub dealer_credit : Dealer → ℕ → Store → ℤ
unfolding compute_dealer_wallet
dealer_credit d id s =
    let wallet = compute_dealer_wallet id s in
    min_ℤ (max_ℤ (pos 0) (neg_ℤ d.outstanding_balance)) wallet.available

-- `supplierCredit`
unfoldable pub supplier_credit : ℕ → Store → ℤ
unfolding compute_supplier_balance
supplier_credit id s = max_ℤ (pos 0) (neg_ℤ (compute_supplier_balance (some id) s))

abbrev pub find_dealer : ℕ → M Dealer
find_dealer id = do or_throw (← gets (λ s. lookup id s.dealers)) dealer_not_found

abbrev pub find_supplier : ℕ → M (Unit {0})
find_supplier id = do or_throw (← gets (λ s. lookup id s.suppliers)) supplier_not_found

-- `assertCreditCovers`: the party is the dealer, if there is one, and else the supplier.
unfoldable pub assert_credit_covers : Option ℕ → Option ℕ → ℤ → M (Unit {0})
unfolding dealer_credit supplier_credit
assert_credit_covers (some d) supplier_id increase = do
  dealer ← find_dealer d
  credit ← gets (dealer_credit dealer d)
  guard (not (gtb_ℤ increase credit)) exceeds_credit
assert_credit_covers none (some id) increase = do
  find_supplier id
  credit ← gets (supplier_credit id)
  guard (not (gtb_ℤ increase credit)) exceeds_credit
assert_credit_covers none none increase = throw supplier_not_found

-- `lockParty`
unfoldable pub lock_party : Option ℕ → Option ℕ → M (Unit {0})
lock_party (some d) supplier_id = find_dealer d >>= λ _. pure tt
lock_party none (some id) = find_supplier id
lock_party none none = throw supplier_not_found

-- `resolvePurchase`
unfoldable pub resolve_purchase : Option ℕ → Option ℕ → M (Option ℕ)
resolve_purchase none supplier_id = pure none
resolve_purchase (some id) none = throw only_supplier_refunds
resolve_purchase (some id) (some supplier_id) = do
  purchase ← or_throw (← gets (λ s. lookup id s.purchases)) purchase_not_found
  guard (purchase.supplier_id == supplier_id) purchase_of_other_supplier
  pure (some id)

-- The filter of the search for a probable duplicate.
unfoldable pub is_duplicate_refund :
    RefundForm → RefundParty → Option ℕ → Option ℕ → ℕ → Refund → Bool
unfolding start_of_business_day start_of_next_business_day duplicate_window_start
is_duplicate_refund form party dealer_id supplier_id now r =
    (if is_dealer_party party then is_dealer_party r.party else not (is_dealer_party r.party))
    && same_id r.dealer_id dealer_id
    && same_id r.supplier_id supplier_id
    && eqb_ℤ r.amount form.amount
    && same_mode r.mode form.mode
    && not (is_some r.cancelled_at)
    && leb (start_of_business_day form.refund_date) r.refund_date
    && ltb r.refund_date (start_of_next_business_day form.refund_date)
    && leb (duplicate_window_start now) r.created_at
