-- ===== src/Outbox.antt =====
-- tauceti_worker/github_outbox.py: publications that are kept until GitHub has taken or refused them.
pub mod State
pub mod Classify
pub mod Evidence
pub mod Forks
pub mod Reconcile
pub mod Drain
pub mod Server
pub mod Once
pub mod Alike
pub mod Turns
pub mod Steps
pub mod Lifetime
pub mod Evident
mod Examples
