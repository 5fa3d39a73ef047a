-- ===== src/Audit.antt =====
-- tauceti_worker/audit_reader.py, audit_progress.py and security_audit.py: the delivery of an audit's input.
pub mod Pages
pub mod Reader
pub mod Coverage
pub mod Session
pub mod Restart
pub mod Delivery
pub mod Cutting
pub mod Packing
pub mod Order
pub mod Counter
pub mod Standing
pub mod Receipts
mod Examples
