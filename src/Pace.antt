-- ===== src/Pace.antt =====
-- tauceti_worker/quota.py: the pace curve, and what a provider's windows permit under it.
pub mod Curve
pub mod Window
pub mod Claude
pub mod Provider
pub mod Codex
mod Examples
pub mod Gate
pub mod Closed
pub mod Sorted
pub mod Parsing
pub mod Held
pub mod Line
pub mod Plateau
pub mod Recovery
pub mod Waiting
pub mod Cache
