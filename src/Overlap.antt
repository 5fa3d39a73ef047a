-- ===== src/Overlap.antt =====
-- tauceti_worker/overlap_state.py: the shared Git leases and the Mathlib cursor.
pub mod State
pub mod Lease
pub mod Exclusion
pub mod Swap
mod Examples
