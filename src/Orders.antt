-- ===== src/Orders.antt =====
-- OrdersService (src/orders/orders.service.ts): an order's way from its approval to its completion.
pub mod Discounts
pub mod Allocation
pub mod Approval
pub mod Progress
pub mod CreditLimit
pub mod Statuses
pub mod Billing
pub mod Completion
pub mod Stock
pub mod Round
