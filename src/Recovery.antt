-- ===== src/Recovery.antt =====
-- The caches beside the recovery manifests.
pub mod Index
pub mod Verified
pub mod Due
pub mod Timely
mod Examples
