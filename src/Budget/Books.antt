-- ===== src/Budget/Books.antt =====
-- tauceti_worker/budget.py: the ledger's books, over every operation that appends to it.
pub mod Conservation
pub mod Events
pub mod Operations
pub mod Adjusts
pub mod Clamped
pub mod Provider
pub mod Receiving
pub mod Received
pub mod Recovering
pub mod Admissions
pub mod Reach
