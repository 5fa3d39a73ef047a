-- ===== src/Outbox/Classify.antt =====
-- tauceti_worker/github_outbox.py: `_finish_locked`, what an attempt leaves of its intent.
use tau_ceti_worker.Review.Board.{is_empty}
use tau_ceti_worker.Prelude.{
  ◌-◌, ◌+◌, nat_eq, ltb, all, ◌||◌, ◌==◌, ◌&&◌, string_eq, not, leb, if◌then◌else◌, filter, any,
  contains, ℕ, none, some, true, false, Option, Bool, [], ◌∷◌, List, String,
}
use tau_ceti_worker.Outbox.State.{
  Outbox, remove, is_fork, write, archive, Request, Reply, Intent, Content, rejected, ambiguous,
  nothing, all_null, partial,
}

abbrev pub is_some {ℓ} : {A : Type ℓ} → Option A → Bool
is_some none = false
is_some (some x) = true

abbrev pub has_kind : List String → Option String → Bool
has_kind kinds none = false
has_kind kinds (some kind) = contains kind kinds

abbrev pub terminal_types : List String
terminal_types =
    "FORBIDDEN" ∷ "UNAUTHORIZED" ∷ "INSUFFICIENT_SCOPES" ∷ "NOT_FOUND" ∷ "GRAPHQL_VALIDATION_FAILED"
    ∷ []

abbrev pub rate_types : List String
rate_types = "RATE_LIMIT" ∷ "RATE_LIMITED" ∷ []

abbrev pub is_partial : Content → Bool
is_partial partial = true
is_partial nothing = false
is_partial all_null = false

-- A wholly rejected mutation.
unfoldable pub rejected_logically : Reply → Bool
rejected_logically r = not (is_empty r.errors) && not (is_partial r.content)

abbrev pub is_write : Request → Bool
is_write q = not (has_kind ("GET" ∷ "HEAD" ∷ "OPTIONS" ∷ []) q.method) && not q.reads

unfoldable pub writes : Reply → List Request
writes r = filter is_write r.requests

-- The requests that speak for the command: its writes, or all where none is one.
unfoldable pub rejected_records : Reply → List Request
unfolding writes
rejected_records r = if is_empty (writes r) then r.requests else writes r

abbrev pub is_refused : Request → Bool
is_refused q = leb 400 q.status && ltb q.status 500

abbrev pub is_unauthorized : Request → Bool
is_unauthorized q = q.status == 401

abbrev pub is_throttled : Request → Bool
is_throttled q = q.status == 403 || q.status == 429

abbrev pub is_zero : Option ℕ → Bool
is_zero none = false
is_zero (some n) = n == 0

abbrev pub is_spent : Request → Bool
is_spent q = is_zero q.remaining || q.status == 429

pub data Disposal : Type 0 where
  removed : Disposal
  archived : String → Disposal
  kept : Intent → Disposal

unfoldable pub dispose : String → Intent → Disposal → Outbox → Outbox
unfolding archive write remove
dispose path v removed box = remove path box
dispose path v (archived reason) box = archive path v reason box
dispose path v (kept v') box = write path v' box

unfoldable pub all_of : (Request → Bool) → List Request → Bool
all_of test qs = not (is_empty qs) && all test qs

-- `s in text` for the words that name a quota.
module _ (mentions : String → String → Bool) where
  unfoldable pub quota : Reply → Bool
  quota r =
      any is_spent r.requests
      || any (λ word. mentions word r.text)
          ("rate limit" ∷ "retry-after" ∷ "quota" ∷ "creation cap" ∷ [])

  unfoldable pub is_terminal : Reply → Bool
  unfolding rejected_logically
  is_terminal r = rejected_logically r && all (has_kind terminal_types) r.errors

  unfoldable pub auth_rejected : Reply → Bool
  unfolding all_of rejected_records
  auth_rejected r = all_of is_unauthorized (rejected_records r)

  -- The reply shows that nothing took effect.
  unfoldable pub is_definitive : Reply → Bool
  unfolding auth_rejected rejected_logically all_of writes
  is_definitive r =
      (r.before_request || auth_rejected r)
      || ((rejected_logically r && all (has_kind rate_types) r.errors)
          || ((r.content_throttle && r.retry_safe) || all_of is_throttled (writes r)))

  -- Rejection before effects does not spend the replay of a fork.
  abbrev pub retries_after : Bool → Intent → ℕ
  retries_after definitive v =
      if definitive && is_fork v.operation then v.fork_retries - 1 else v.fork_retries

  unfoldable pub deferred : ℕ → Intent → Reply → Intent
  unfolding is_definitive auth_rejected
  deferred now v r = record v {
    status = if is_definitive r then rejected else ambiguous;
    fork_retries = retries_after (is_definitive r) v;
    retry_at = if auth_rejected r then now + 300 else v.retry_at;
    updated = some now;
  }

  -- `_finish_locked`
  unfoldable pub finish : ℕ → Intent → Reply → Disposal
  unfolding quota is_terminal auth_rejected all_of rejected_records deferred
  finish now v r =
      if r.success && is_fork v.operation
      then kept (record v { status = ambiguous; updated = some now; retry_at = now + 60 })
      else if r.success
      then removed
      else if is_terminal r && not (quota r)
      then archived "GraphQL rejected the mutation"
      else if (all_of is_refused (rejected_records r) && not (quota r)) && not (auth_rejected r)
      then archived "GitHub rejected the publication"
      else kept (deferred now v r)
