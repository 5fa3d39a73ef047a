-- ===== src/Outbox/Evidence.antt =====
-- tauceti_worker/github_outbox.py: what the reads of `reconcile` find. A read that failed, or whose
-- answer has another shape, is `none`; logins and labels are in lower case.
use tau_ceti_worker.Prelude.{ℕ, Option, Bool, List, String}

pub data Verdict : Type 0 where
  applied absent obsolete unavailable unknown : Verdict

pub record ForkEvidence : Type 0 where
  pub actor : String
  pub upstream_id : ℕ
  pub fork : Option String
  pub absent : Bool
  pub observed_at : ℕ

pub record ClosingPull : Type 0 where
  pub state : String
  pub head : String
  pub login : String
  pub labels : List String

pub record Thread : Type 0 where
  pub resolved : Option Bool
  pub can_resolve : Option Bool

-- A pull request of the head's branch.
pub record HeadPull : Type 0 where
  pub owner : String
  pub created : ℕ

-- A listed issue, comment or review.
pub record Listed : Type 0 where
  pub body : Option String
  pub login : String
  pub reply_to : Option String
  pub at : Option ℕ
  pub is_pull : Bool

pub record Evidence : Type 0 where
  pub account : Option String
  pub viewer : Option String
  pub fork : Option ForkEvidence
  pub closing : Option ClosingPull
  pub thread : Option (Option Thread)
  pub pulls : Option (List HeadPull × Bool)
  pub listed : Option (List Listed)
