-- ===== src/Review/Cache.antt =====
-- tauceti_worker/review_state.py: `observe`, `gh_meta`, `newest_contest_reply` and `bust`.
use tau_ceti_worker.Prelude.{
  ℕ, ◌+◌, String, Bool, true, false, not, ◌&&◌, ◌||◌, Option, none, some, List, [], ◌∷◌, Dict,
  lookup, insert, erase, nat_eq, string_eq, ltb, leb, ◌==◌, if◌then◌else◌,
}
use tau_ceti_worker.Review.State.{
  cache_ttl, backstop, memo_time, Board, empty_board, fresh, assumed, stale, missing, fetch_failed,
  Meta, Facts, Sidecar, CacheFile, ReviewState, Env, SharedRead, shared_ttl,
}

-- The PRs of the survey's list whose `updatedAt` is not empty; of two rows for one PR the last
-- counts.
unfoldable pub clocks : Dict ℕ String → List (ℕ × String) → Dict ℕ String
clocks seen [] = seen
clocks seen ((pr, at) ∷ rest) = clocks (if at == "" then seen else insert pr at seen) rest

abbrev pub text_of : Option String → String
text_of none = ""
text_of (some s) = s

unfoldable pub forget_moved :
    Dict ℕ String
    → Dict ℕ String
    → Dict ℕ (ℕ × Option (List String))
    → Dict ℕ (ℕ × Option (List String))
forget_moved seen [] memo = memo
forget_moved seen ((pr, at) ∷ rest) memo = forget_moved seen rest (elim (lookup pr seen) [
  | none ↦ erase pr memo
  | some clock ↦ if clock == at then memo else erase pr memo
])

-- `observe`
unfoldable pub observe : List (ℕ × String) → ReviewState → ReviewState
unfolding clocks forget_moved
observe prs s =
    let seen = clocks [] prs in
    record s { comments = forget_moved seen s.observed s.comments; observed = seen }

-- `_sidecar`: the payload, if it is still entitled to answer for the PR.
unfoldable pub entitled {ℓ} : {A : Type ℓ} → Env → String → Option (Sidecar A) → Option A
entitled env clock none = none
entitled env clock (some sc) =
    if env.shared_service || clock == ""
    then none
    else if sc.updated_at == clock
        && (leb sc.fetched_at env.now && ltb env.now (sc.fetched_at + backstop))
    then some sc.payload
    else none

abbrev pub clock_of : ReviewState → ℕ → String
clock_of s pr = text_of (lookup pr s.observed)

-- `_write_sidecar`
unfoldable pub write_key : Env → ℕ → Option Board → ReviewState → ReviewState
write_key env pr board s =
    if env.writable
    then record s {
      keys =
          insert pr (record { payload = board; updated_at = clock_of s pr; fetched_at = env.now })
            s.keys;
    }
    else s

unfoldable pub write_contest : Env → ℕ → Option String → ReviewState → ReviewState
write_contest env pr contest s =
    if env.writable
    then record s {
      contests =
          insert pr (record { payload = contest; updated_at = clock_of s pr; fetched_at = env.now })
            s.contests;
    }
    else s

unfoldable pub write_cache : Env → ℕ → Board → ReviewState → ReviewState
write_cache env pr board s =
    if env.writable
    then record s { cache = insert pr (record { mtime = env.now; content = some board }) s.cache }
    else s

unfoldable pub load : Option CacheFile → Option Board
load none = none
load (some f) = f.content

-- `shared_read`: what it answers without a fetch, and what it stores after one.
unfoldable pub shared_answer : Env → ℕ → ReviewState → Option SharedRead → Option (List String)
shared_answer env pr s none = none
shared_answer env pr s (some c) =
    if c.generation == s.generation
      && (c.revision == clock_of s pr && (leb c.time env.now && ltb env.now (c.time + shared_ttl)))
    then some c.value
    else none

unfoldable pub share_read : Env → ℕ → ReviewState → Dict ℕ SharedRead → Dict ℕ SharedRead
share_read env pr s reads = elim env.fetched [
  | none ↦ reads
  | some cs ↦
      if env.storing
      then insert pr
          (record {
            time = env.now;
            generation = s.generation;
            revision = clock_of s pr;
            value = cs;
          })
          reads
      else reads
]

-- The comments of a read, with the mark `cache_hit`, in the memo.
unfoldable pub memoize :
    Env → Bool → Option (List String) → ℕ → ReviewState → Option (List String) × ReviewState
memoize env hit comments pr s = (
  comments,
  record s {
    shared_hit = insert pr hit s.shared_hit;
    comments = insert pr (env.now, comments) s.comments;
  },
)

unfoldable pub fetch_shared :
    Env → ℕ → ReviewState → Option (List String) → Option (List String) × ReviewState
unfolding memoize share_read
fetch_shared env pr s (some cs) = memoize env true (some cs) pr s
fetch_shared env pr s none =
    memoize env env.cache_hit env.fetched pr
      (record s { shared_issue = share_read env pr s s.shared_issue })

-- The read under `read_context(fresh=force, revision=...)`.
unfoldable pub fetch_comments : Env → Bool → ℕ → ReviewState → Option (List String) × ReviewState
unfolding memoize fetch_shared shared_answer
fetch_comments env force pr s =
    if force || not env.sharing
    then memoize env env.cache_hit env.fetched pr s
    else fetch_shared env pr s (shared_answer env pr s (lookup pr s.shared_issue))

unfoldable pub memo_or_fetch :
    Env
    → Bool
    → ℕ
    → ReviewState
    → Option (ℕ × Option (List String))
    → Option (List String) × ReviewState
unfolding fetch_comments
memo_or_fetch env force pr s none = fetch_comments env force pr s
memo_or_fetch env force pr s (some (at, memo)) =
    if ltb env.now (at + memo_time) then (memo, s) else fetch_comments env force pr s

-- `_issue_comments`
unfoldable pub issue_comments : Env → Bool → ℕ → ReviewState → Option (List String) × ReviewState
unfolding memo_or_fetch
issue_comments env force pr s =
    memo_or_fetch env force pr s (if force then none else lookup pr s.comments)

abbrev pub flag_of : Option Bool → Bool
flag_of none = false
flag_of (some b) = b

abbrev pub meta_of : Option Board → Meta
meta_of none = record { board = empty_board; provenance = missing }
meta_of (some b) = record { board = b; provenance = fresh }

-- An entitled record answers: a recorded absence stays an absence.
abbrev pub recorded : Option Board → Meta
recorded none = record { board = empty_board; provenance = missing }
recorded (some b) = record { board = b; provenance = assumed }

-- A failed fetch serves a prior value.
unfoldable pub fallback : Option Board → Meta
fallback none = record { board = empty_board; provenance = fetch_failed }
fallback (some prior) = record { board = prior; provenance = stale }

unfoldable pub respond :
    Env → ℕ → ReviewState → Option (List String) → Option Board → Meta × ReviewState
unfolding write_key write_cache load fallback
respond env pr s comments (some board) = (
  record {
    board = board;
    provenance = if flag_of (lookup pr s.shared_hit) then assumed else fresh;
  },
  write_cache env pr board (write_key env pr (some board) s),
)
respond env pr s none none = (fallback (load (lookup pr s.cache)), s)
respond env pr s (some cs) none = (
  record { board = empty_board; provenance = missing },
  let s' = write_key env pr none s in record s' { cache = erase pr s'.cache },
)

-- The plain TTL, for a caller outside a survey pass.
unfoldable pub by_age : Env → ℕ → ReviewState → Option Board
unfolding load
by_age env pr s =
    if env.shared_service || not (clock_of s pr == "") then none else elim (lookup pr s.cache) [
      | none ↦ none
      | some f ↦ if ltb env.now (f.mtime + cache_ttl) then f.content else none
    ]

-- The library function that finds the newest marked scoreboard among the comments.
module _ (scoreboard : Option (List String) → Option Board) where
  -- The read that goes to the comments.
  unfoldable pub read_comments : Env → Bool → ℕ → ReviewState → Meta × ReviewState
  unfolding issue_comments respond
  read_comments env force pr s =
      let (comments, s') = issue_comments env force pr s in
      respond env pr s' comments (scoreboard comments)

  -- The reads that need no comments, for a call that is not forced.
  unfoldable pub local_answer : Env → ℕ → ReviewState → Option Meta
  unfolding entitled by_age
  local_answer env pr s = elim (entitled env (clock_of s pr) (lookup pr s.keys)) [
    | some payload ↦ some (recorded payload)
    | none ↦ elim (by_age env pr s) [
      | some board ↦ some (record { board = board; provenance = assumed })
      | none ↦ none
    ]
  ]

  abbrev survey_answer : Option Facts → Option Meta
  survey_answer none = none
  survey_answer (some f) = if f.issue_complete then some (meta_of f.meta) else none

  -- `gh_meta`
  unfoldable pub gh_meta : Env → Bool → ℕ → ReviewState → Meta × ReviewState
  unfolding read_comments local_answer
  gh_meta env true pr s = read_comments env true pr (record s { facts = erase pr s.facts })
  gh_meta env false pr s = elim (survey_answer (lookup pr s.facts)) [
    | some meta ↦ (meta, s)
    | none ↦ elim (local_answer env pr s) [
      | some meta ↦ (meta, s)
      | none ↦ read_comments env false pr s
    ]
  ]

-- `invalidate()`, which draws a new generation for every shared read; `none` if it cannot be written.
unfoldable pub invalidate : Option String → ReviewState → ReviewState
invalidate none s = s
invalidate (some drawn) s = record s { generation = drawn }

-- `bust`
unfoldable pub bust : Option String → ℕ → ReviewState → ReviewState
unfolding invalidate
bust drawn pr s =
    let s' = invalidate drawn s in
    record s' {
      facts = erase pr s'.facts;
      comments = erase pr s'.comments;
      shared_hit = erase pr s'.shared_hit;
      cache = erase pr s'.cache;
      keys = erase pr s'.keys;
      contests = erase pr s'.contests;
    }

-- `newest_contest_reply`; `newest_contest` is the library function, and `env.fetched` holds the
-- review comments that GitHub answers with.
module _ (newest_contest : List String → Option String) where
  abbrev concluded : Env → ℕ → List String → ReviewState → Option String × ReviewState
  concluded env pr rcs s = (newest_contest rcs, write_contest env pr (newest_contest rcs) s)

  unfoldable pub fetch_contest : Env → ℕ → ReviewState → Option String × ReviewState
  unfolding write_contest
  fetch_contest env pr s = elim env.fetched [ none ↦ (none, s) | some rcs ↦ concluded env pr rcs s ]

  unfoldable pub read_contest : Env → Bool → ℕ → ReviewState → Option String × ReviewState
  unfolding fetch_contest shared_answer share_read
  read_contest env force pr s =
      if force || not env.sharing
      then fetch_contest env pr s
      else elim (shared_answer env pr s (lookup pr s.shared_review)) [
        | some rcs ↦ concluded env pr rcs s
        | none ↦
            fetch_contest env pr (record s { shared_review = share_read env pr s s.shared_review })
      ]

  abbrev survey_contest : Option Facts → Option (Option String)
  survey_contest none = none
  survey_contest (some f) = if f.review_complete then some f.contest else none

  unfoldable pub newest_contest_reply : Env → Bool → ℕ → ReviewState → Option String × ReviewState
  unfolding read_contest entitled
  newest_contest_reply env true pr s =
      read_contest env true pr (record s { facts = erase pr s.facts })
  newest_contest_reply env false pr s = elim (survey_contest (lookup pr s.facts)) [
    | some contest ↦ (contest, s)
    | none ↦ elim (entitled env (clock_of s pr) (lookup pr s.contests)) [
      | some contest ↦ (contest, s)
      | none ↦ read_contest env false pr s
    ]
  ]
