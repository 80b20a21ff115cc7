-- ===== src/Store.antt =====
-- The database as one state, and transactions over it. A service method that throws inside
-- `prisma.$transaction` is rolled back, so an exception carries no state. The row locks
-- (`SELECT ... FOR UPDATE`) serialise the transactions that they guard and change nothing in one.
mod Monad
pub mod After
unfoldable pub use Monad.*
