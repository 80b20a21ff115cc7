-- ===== src/Lib.antt =====
-- electro_mart_backend: the money and the stock of a shop's back end (NestJS over Prisma), modelled
-- and proved.
--
-- The program is a set of services over one database. Payments, refunds, wallet credit, orders and
-- settlements write the tables; a dealer's `outstandingBalance` is stored, everything else that
-- is said of money (an invoice's status, the wallet, a supplier's balance) is computed from the rows.
-- The services meet in that stored balance: each changes it by what its own rows then count for, and
-- the contract between them (Ledger) is that it always is what the rows say, an invoice counting from
-- the completion of its order on. Cross-check I4 of docs/LIQUID_CASH_ACCOUNTING_CONTRACT.md and of
-- test/support/invariants.ts counts every invoice; between approval and completion of an order the
-- code does not agree with it.
--
-- Each service method is one transaction: a function from a `Store` (the tables) to a result, an
-- error or a value with a new `Store` (Store). A transaction that throws is rolled back. Rows are
-- found, written and deleted by the calls of the Prisma client, modelled on association lists (Table).
-- Amounts are whole numbers of the smallest unit, ids are numbers, instants are milliseconds since
-- the epoch, and one reading of the clock serves a request, with the ids that the database hands out.
--
-- The files, with the paths from the root of the repository:
--   Cheques     src/common/utils/cheque-transitions.ts: CHEQUE_TRANSITIONS, assertChequeTransition
--   Clock       src/common/utils/business-date.ts, duplicate-guard.ts
--   Rows        prisma/schema.prisma: the rows of the tables
--   Invoicing   src/common/utils/invoice-financials.ts
--   Wallet      src/common/utils/dealer-wallet.ts: computeDealerWallet, assertWalletNotOverdrawn;
--               Wallet.Totals totalDealerWallets
--   Payments    src/payments/payments.service.ts: create, update (`edit`), remove, updateChequeStatus,
--               undo (`undo_last`) and their private methods
--   Refunds     src/refunds/refunds.service.ts: create, update (`edit`), updateChequeStatus, cancel,
--               restore; src/common/utils/ledger-revision.ts
--   Suppliers   src/common/utils/supplier-balance.ts
--   Settlements src/credits/credits.service.ts: createSettlement, updateChequeStatus
--               (`update_settlement_status`), deleteSettlement
--   WalletCredit src/dealer-wallet/dealer-wallet.service.ts: useCreditInTransaction (`use_credit`),
--               removeUse
--   Inventory   src/inventory/inventory.service.ts: recordMovement, adjustStock
--   SalesReturns src/sales-returns/sales-returns.service.ts: create, update (`edit`), remove and their
--               private methods
--   Purchases   src/purchases/purchases.service.ts: create, update (`edit`), remove
--   Commission  src/commission/settlements.service.ts: the six operations on a settlement;
--               commission-reconciliation.service.ts: reconcile
--   ChequeFlow  src/cheque-flow/cheque-flow.utils.ts: summarise, buildTimeline, monthsBetween
--   Orders      src/orders/orders.service.ts: approve, reject, advanceStatus, completeDirectly,
--               allocateItemDiscounts, resolveDiscount, assertWithinCreditLimit
--   Ledger      the contract on the stored balance, and how far a state is off it
--   Store.After what holds after a transaction that commits; of one that is rolled back nothing is
--               said, since the state is the one before it
--   Prelude, Table, Result: shared names, whole numbers, tables with their sums, the errors
--   Examples    runs on small databases
--
-- The loops go over the rows of a table or the items of a request; the one over months
-- (ChequeFlow.Months) takes fuel, a turn for each month of the span. decimal.js, where it rounds (`div`,
-- `toDecimalPlaces`), is a parameter of the functions of discounts and commissions.
--
-- Not modelled: row locks and the interleaving of transactions (each runs by itself), mail, the text
-- of messages and of the activity log, the JSON before-images of ledger revisions, sequence numbers,
-- the serial numbers of product units (what SerialLifecycleService answers is an argument of the
-- requests that call it), and queries that only list rows.
pub mod Prelude
pub mod Table
pub mod Result
pub mod Cheques
pub mod Clock
pub mod Rows
pub mod Store
pub mod Invoicing
pub mod Wallet
pub mod Ledger
pub mod Payments
pub mod Suppliers
pub mod Refunds
pub mod Settlements
pub mod WalletCredit
pub mod Inventory
pub mod Orders
pub mod SalesReturns
pub mod Commission
pub mod ChequeFlow
pub mod Purchases
pub mod Examples
