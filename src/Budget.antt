-- ===== src/Budget.antt =====
-- tauceti_worker/budget.py: shared local grant accounting over an append-only ledger.
-- `Budget` reads the whole ledger under its lock, decides, and appends one record; each method
-- here takes the store (ledger file and waiting.json) and gives the store back with its answer.
pub mod State
pub mod Ledger
pub mod Estimate
pub mod Queue
pub mod Admission
pub mod Settlement
pub mod Cumulative
pub mod Evidence
pub mod Booking
pub mod Corrected
pub mod Native
pub mod Acceptance
pub mod Recovery
pub mod Outcome
pub mod Charged
pub mod Charges
pub mod Telescope
pub mod Prefixed
pub mod Repeats
pub mod Replay
pub mod Funds
pub mod Books
pub mod Receipts
pub mod Quartile
mod Examples
mod ReceiptExamples
