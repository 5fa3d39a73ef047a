-- ===== src/Outbox/Reconcile.antt =====
-- tauceti_worker/github_outbox.py: `reconcile`, what GitHub shows of an intent.
use tau_ceti_worker.Outbox.Forks.{is_same, reconcile_fork}
use tau_ceti_worker.Prelude.{
  contains, any, ◌||◌, ◌+◌, if◌then◌else◌, ◌&&◌, string_eq, nat_eq, leb, ◌==◌, not, ℕ, none, some,
  true, false, Option, Bool, [], ◌∷◌, List, String,
}
use tau_ceti_worker.Outbox.Evidence.{
  Verdict, HeadPull, ClosingPull, Thread, Listed, Evidence, applied, absent, obsolete, unavailable,
  unknown,
}
use tau_ceti_worker.Outbox.State.{
  Operation, Intent, fork, close, update, issue, local, other, resolve, create, comment,
}

abbrev pub holds : List String
holds = "keep" ∷ "hold" ∷ "wip" ∷ "human" ∷ "on-hold" ∷ "do-not-close" ∷ []

abbrev pub is_given : Option (String × ℕ) → Bool
is_given none = false
is_given (some d) = true

-- Python's `fullmatch` of a revision, and the body that `same_body` compares: line ends and
-- surrounding blanks normalized.
module _ (is_sha : String → Bool) (plain : String → String) where
  abbrev pub is_revision : Option String → Bool
  is_revision none = false
  is_revision (some s) = is_sha s

  abbrev pub is_known : Option String → Bool
  is_known none = false
  is_known (some s) = not (s == "")

  unfoldable pub reconcile_close : Intent → Option ClosingPull → Verdict
  reconcile_close v none = unknown
  reconcile_close v (some live) =
      if live.state == "closed"
      then applied
      else if not (is_revision v.expected_head) || not (is_known v.actor)
      then unknown
      else if not (is_same v.expected_head live.head)
          || (not (is_same v.actor live.login) || any (λ label. contains label holds) live.labels)
      then obsolete
      else if live.state == "open"
      then absent
      else unknown

  abbrev pub is_yes : Option Bool → Bool
  is_yes none = false
  is_yes (some b) = b

  abbrev pub is_no : Option Bool → Bool
  is_no none = false
  is_no (some b) = not b

  unfoldable pub reconcile_thread : Option (Option Thread) → Verdict
  reconcile_thread none = unknown
  reconcile_thread (some none) = unavailable
  reconcile_thread (some (some t)) =
      if is_yes t.resolved
      then applied
      else if is_no t.can_resolve
      then unavailable
      else if is_no t.resolved && is_yes t.can_resolve
      then absent
      else unknown

  abbrev pub is_recent : Intent → ℕ → Bool
  is_recent v at = leb v.created (at + 300)

  abbrev pub is_created : Intent → String → HeadPull → Bool
  is_created v who p = p.owner == who && (v.created == 0 || is_recent v p.created)

  unfoldable pub reconcile_create : Intent → String → Option (List HeadPull × Bool) → Verdict
  reconcile_create v who none = unknown
  reconcile_create v who (some (pulls, more)) =
      if any (is_created v who) pulls then applied else if more then unknown else absent

  -- `same_body`
  abbrev pub same_body : Option String → String → Bool
  same_body none right = false
  same_body (some left) right = plain left == plain right

  abbrev pub is_recent_at : Intent → Option ℕ → Bool
  is_recent_at v none = v.created == 0
  is_recent_at v (some at) = is_recent v at

  abbrev pub is_reply : Option String → Listed → Bool
  is_reply none c = true
  is_reply (some number) c = is_same c.reply_to number

  abbrev pub is_comment : Intent → String → String → Option String → Listed → Bool
  is_comment v who body reply c =
      (same_body c.body body && c.login == who) && (is_reply reply c && is_recent_at v c.at)

  abbrev pub is_dated : Intent → Option ℕ → Bool
  is_dated v none = false
  is_dated v (some at) = is_recent v at

  abbrev pub is_issue : Intent → String → String → Listed → Bool
  is_issue v who body c =
      (not c.is_pull && same_body c.body body) && (c.login == who && is_dated v c.at)

  unfoldable pub seen_among : (Listed → Bool) → Option (List Listed) → Verdict
  seen_among test none = unknown
  seen_among test (some cs) = if any test cs then applied else absent

  unfoldable pub reconcile_listed :
      (String → String → Listed → Bool)
      → Option String
      → Option String
      → Option (List Listed)
      → Verdict
  unfolding seen_among
  reconcile_listed test none who listed = unknown
  reconcile_listed test (some body) none listed = unknown
  reconcile_listed test (some body) (some who) listed = seen_among (test who body) listed

  -- `reconcile`
  unfoldable pub reconcile_as : Operation → ℕ → Evidence → Intent → Verdict × Intent
  unfolding reconcile_fork reconcile_close reconcile_thread reconcile_create reconcile_listed
  reconcile_as (fork none) now e v = (unknown, v)
  reconcile_as (fork (some up)) now e v = reconcile_fork now e.account up e.fork v
  reconcile_as close now e v =
      if is_given v.destination then (reconcile_close v e.closing, v) else (unknown, v)
  reconcile_as (resolve id) now e v = (reconcile_thread e.thread, v)
  reconcile_as (create none) now e v = (unknown, v)
  reconcile_as (create (some who)) now e v = (reconcile_create v who e.pulls, v)
  reconcile_as update now e v = (absent, v)
  reconcile_as issue now e v =
      (reconcile_listed (λ who body c. is_issue v who body c) v.body e.viewer e.listed, v)
  reconcile_as (comment reply) now e v =
      (reconcile_listed (λ who body c. is_comment v who body reply c) v.body e.viewer e.listed, v)
  reconcile_as local now e v = (unknown, v)
  reconcile_as other now e v = (unknown, v)

  unfoldable pub reconcile : ℕ → Evidence → Intent → Verdict × Intent
  unfolding reconcile_as
  reconcile now e v = reconcile_as v.operation now e v
