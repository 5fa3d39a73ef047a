-- ===== src/Review.antt =====
-- tauceti_worker/review_state.py and the decisions that rest on it in tauceti_worker/survey.py.
pub mod State
pub mod Board
pub mod Cache
pub mod Disposition
pub mod Freshness
pub mod Verdicts
mod Examples
