-- ===== src/Budget/Funds.antt =====
-- tauceti_worker/budget.py, `admit`: money that is admitted is money that is there.
pub mod Pending
pub mod Orphans
pub mod Admitted
