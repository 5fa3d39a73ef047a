-- ===== src/Grants.antt =====
-- What may start or publish work: fleet admission, the one foreign repair, and replayed checkpoints.
pub mod Fleet
pub mod Route
pub mod Policy
pub mod Profile
mod Examples
