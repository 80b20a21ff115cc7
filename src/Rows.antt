-- ===== src/Rows.antt =====
-- The rows of the tables that the modelled services read and write: the models of
-- prisma/schema.prisma, less the columns that no modelled code reads. Ids are numbers, since the code
-- only compares them; amounts are whole numbers of the smallest unit of a `Decimal` column, and
-- instants are milliseconds since the Unix epoch.
pub mod Commission
use electro_mart_backend.Prelude.{ℕ, Bool, Option, List, String}
use electro_mart_backend.Prelude.Int.{ℤ}
use electro_mart_backend.Cheques.{PaymentMode, ChequeStatus}

pub data OrderStatus : Type 0 where
  pending_approval approved rejected packed delivered completed : OrderStatus

pub data PaymentStatus : Type 0 where
  paid unpaid overdue partial : PaymentStatus

pub record Dealer : Type 0 where
  pub credit_limit : ℤ
  pub unlimited_credit : Bool
  pub outstanding_balance : ℤ

pub record OrderItem : Type 0 where
  pub product_id : ℕ
  pub quantity : ℕ
  pub unit_price : ℤ
  pub line_total : ℤ
  pub allocated_discount : ℤ
  pub net_line_total : ℤ
  pub net_unit_price : ℤ

pub record Order : Type 0 where
  pub dealer_id : ℕ
  pub status : OrderStatus
  pub subtotal : ℤ
  pub discount : ℤ
  pub total_amount : ℤ
  pub approved_at : Option ℕ
  pub rejected_at : Option ℕ
  pub packed_at : Option ℕ
  pub delivered_at : Option ℕ
  pub completed_at : Option ℕ
  pub items : List OrderItem
  -- the representative who placed it
  pub created_by_rep_id : Option ℕ
  pub created_at : ℕ

pub record Invoice : Type 0 where
  pub order_id : ℕ
  pub dealer_id : ℕ
  pub subtotal : ℤ
  pub discount_total : ℤ
  pub grand_total : ℤ
  pub payment_status : PaymentStatus

pub record Payment : Type 0 where
  pub invoice_id : Option ℕ
  pub dealer_id : ℕ
  pub amount : ℤ
  pub mode : PaymentMode
  pub reference : Option String
  pub payment_date : ℕ
  pub created_at : ℕ
  pub cheque_status : Option ChequeStatus
  pub cheque_status_updated_at : Option ℕ
  pub bank_name : Option String
  pub cheque_number : Option String
  pub cheque_date : Option ℕ
  pub collected_date : Option ℕ
  pub remarks : Option String

pub data RevisionAction : Type 0 where
  updated cheque_status deleted undo restored : RevisionAction

-- `PaymentRevision.snapshot`: the row as it was, with the collection that was linked to it, or the
-- mark `{ id, absent: true }`.
pub data Snapshot : Type 0 where
  of_payment : Payment → Option ℕ → Snapshot
  absent : Snapshot

pub record PaymentRevision : Type 0 where
  pub payment_id : ℕ
  pub invoice_id : Option ℕ
  pub action : RevisionAction
  pub snapshot : Snapshot
  pub created_at : ℕ
  pub undone_at : Option ℕ

pub record CreditUse : Type 0 where
  pub dealer_id : ℕ
  pub invoice_id : ℕ
  pub amount : ℤ
  pub created_at : ℕ

pub record ReturnItem : Type 0 where
  pub product_id : ℕ
  pub quantity : ℕ
  pub unit_price : ℤ
  pub allocated_discount : ℤ
  pub line_total : ℤ

pub record SalesReturn : Type 0 where
  pub order_id : ℕ
  pub dealer_id : ℕ
  pub total_amount : ℤ
  pub return_date : ℕ
  pub created_at : ℕ
  pub items : List ReturnItem

pub data RefundParty : Type 0 where
  dealer supplier : RefundParty

pub record Refund : Type 0 where
  pub party : RefundParty
  pub dealer_id : Option ℕ
  pub supplier_id : Option ℕ
  pub purchase_id : Option ℕ
  pub amount : ℤ
  pub mode : PaymentMode
  pub refund_date : ℕ
  pub cheque_status : Option ChequeStatus
  pub cheque_status_updated_at : Option ℕ
  pub cheque_number : Option String
  pub bank_name : Option String
  pub cheque_date : Option ℕ
  pub cancelled_at : Option ℕ
  pub created_at : ℕ

pub record PurchaseItem : Type 0 where
  pub product_id : ℕ
  pub quantity : ℕ
  pub unit_cost : ℤ
  pub line_total : ℤ

pub record Purchase : Type 0 where
  pub supplier_id : ℕ
  pub total_value : ℤ
  pub transport_charges : ℤ
  pub purchase_date : ℕ
  pub cancelled_at : Option ℕ
  pub items : List PurchaseItem

-- A row of `PurchaseReturn`, or of `PurchaseReturnReplacement`.
pub record PurchaseReturn : Type 0 where
  pub supplier_id : ℕ
  pub total_amount : ℤ
  pub purchase_id : Option ℕ

pub record SupplierPayment : Type 0 where
  pub supplier_id : ℕ
  pub amount : ℤ
  pub mode : PaymentMode
  pub reference : Option String
  pub payment_date : ℕ
  pub cheque_status : Option ChequeStatus
  pub cheque_status_updated_at : Option ℕ
  pub cheque_deposit_date : Option ℕ
  pub bank_name : Option String
  pub created_at : ℕ

-- A row of `LedgerRevision`, less the before-image.
pub data LedgerEntity : Type 0 where
  supplier_payment refund : LedgerEntity

pub data LedgerAction : Type 0 where
  updated cheque_status deleted cancelled restored : LedgerAction

pub record LedgerRevision : Type 0 where
  pub entity : LedgerEntity
  pub entity_id : ℕ
  pub action : LedgerAction

pub data MovementType : Type 0 where
  purchase sale adjustment reserve release : MovementType

pub record InventoryLog : Type 0 where
  pub product_id : ℕ
  pub type : MovementType
  pub quantity_in : ℕ
  pub quantity_out : ℕ
  pub balance_after : ℕ
