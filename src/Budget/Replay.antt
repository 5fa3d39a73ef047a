-- ===== src/Budget/Replay.antt =====
-- tauceti_worker/budget.py: what holds of every replay of the ledger.
pub mod Append
pub mod Keyed
pub mod Unnamed
