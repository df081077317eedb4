-- ===== src/Queue.antt =====
-- internal/queue: the stored rows, the ledger beside them, its books, and the store over both.
pub mod Ledger
pub mod Balance
pub mod Rows
pub mod Store
pub mod Tallies
pub mod Agreement
pub mod Sweeps
pub mod Histories
pub mod Lapses
pub mod Accounts
pub mod Meter
pub mod Scheduler
pub mod Fairness
pub mod Workers
