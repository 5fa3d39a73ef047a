-- ===== src/Review/Examples.antt =====
-- Small states of the review cache, and a scoreboard that blocks.
use tau_ceti_worker.Review.Verdicts.{clean-not_blocking, AllEqual}
use tau_ceti_worker.Review.Freshness.{gh_meta-forced_fresh, gh_meta-forced_failure, gh_meta-bust}
use tau_ceti_worker.Review.Disposition.{
  fix_disposition-actionable, IsFixable, actionable, fix_disposition,
}
use tau_ceti_worker.Review.Cache.{
  invalidate, shared_answer, memoize, fetch_shared, by_age, respond, load, fetch_comments,
  memo_or_fetch, fallback, issue_comments, entitled, bust, read_comments, local_answer, gh_meta,
}
use tau_ceti_worker.Review.Board.{allowed_states, ledger_blocking, ledger_clean_head}
use tau_ceti_worker.Prelude.{
  erase, refl, nat_eq, insert, ◌↔◌, values, lookup, ◌≡◌, some, String, ◌∷◌, true, none, false, [],
  List, Option,
}
use tau_ceti_worker.Review.State.{SharedRead, empty_board, ReviewState, Meta, Env, Board, fresh}

-- The newest scoreboard in the toy comments: the first comment is its head.
abbrev board_in : Option (List String) → Option Board
board_in none = none
board_in (some []) = none
board_in (some (c ∷ cs)) = some (record empty_board { head_sha = c })

abbrev online : Env
online = record {
  now = 5000;
  shared_service = false;
  writable = true;
  fetched = some ("abc" ∷ []);
  cache_hit = false;
  sharing = true;
  storing = true;
}

abbrev offline : Env
offline = record online { fetched = none }

abbrev old_read : SharedRead
old_read = record { time = 4000; generation = "g1"; revision = "t1"; value = "old" ∷ [] }

abbrev warm : ReviewState
warm = record {
  facts = [];
  comments = (7, (4000, some ("old" ∷ []))) ∷ [];
  observed = (7, "t1") ∷ [];
  shared_hit = [];
  cache =
      (7, record { mtime = 3000; content = some (record empty_board { head_sha = "old" }) }) ∷ [];
  keys =
      (
        7,
        record {
          payload = some (record empty_board { head_sha = "old" });
          updated_at = "t1";
          fetched_at = 3000;
        },
      )
      ∷ [];
  contests = [];
  shared_issue = (7, old_read) ∷ [];
  shared_review = [];
  generation = "g1";
}

gh_meta-forced_fresh_example :
    (cs : List String) × (online.fetched ≡ some cs)
    × (online.cache_hit ≡ false)
    × (board_in (some cs) ≡ some (gh_meta board_in online true 7 warm).0.board)
unfolding gh_meta read_comments issue_comments memo_or_fetch fetch_comments respond lookup insert
gh_meta-forced_fresh_example = gh_meta-forced_fresh board_in refl online 7 warm refl

gh_meta-forced_failure_example :
    ((gh_meta board_in offline true 7 warm).1.keys ≡ warm.keys)
    × ((gh_meta board_in offline true 7 warm).1.cache ≡ warm.cache)
    × ((gh_meta board_in offline true 7 warm).1.contests ≡ warm.contests)
    × ((gh_meta board_in offline true 7 warm).0 ≡ fallback (load (lookup 7 warm.cache)))
gh_meta-forced_failure_example = gh_meta-forced_failure board_in refl offline 7 warm refl

gh_meta-bust_example :
    (gh_meta board_in online false 7 (bust (some "g2") 7 warm)).0
    ≡ (gh_meta board_in online true 7 (bust (some "g2") 7 warm)).0
unfolding lookup
gh_meta-bust_example = gh_meta-bust board_in online "g2" 7 warm refl

-- Without a new generation the shared cache would still answer with the old comments.
unbusted_head : (gh_meta board_in online false 7 (bust none 7 warm)).0.board.head_sha ≡ "old"
unfolding gh_meta local_answer entitled by_age read_comments issue_comments memo_or_fetch
    fetch_comments fetch_shared memoize shared_answer respond lookup insert erase bust invalidate
unbusted_head = refl

-- The key sidecar answers the unforced read, so that `bust` matters.
warm_head : (gh_meta board_in online false 7 warm).0.board.head_sha ≡ "old"
unfolding gh_meta local_answer entitled lookup
warm_head = refl

abbrev settled_board : Board
settled_board = record empty_board {
  head_sha = "abc";
  states = ("style", "green") ∷ ("math", "green") ∷ [];
}

clean-not_blocking_example :
    AllEqual "green" (values settled_board.states)
    × (settled_board.states ≡ [] → AllEqual "approve" settled_board.runs)
unfolding ledger_clean_head ledger_blocking allowed_states
clean-not_blocking_example = clean-not_blocking settled_board "abc" refl refl refl

abbrev blocking_board : Board
blocking_board = record settled_board { states = ("style", "blocking_request") ∷ [] }

abbrev blocked_meta : Meta
blocked_meta = record { board = blocking_board; provenance = fresh }

fix_disposition-actionable_example :
    (fix_disposition blocked_meta "abc" true true 5 false false ≡ actionable)
    ↔ IsFixable blocked_meta "abc" true 5 false false
fix_disposition-actionable_example =
    fix_disposition-actionable blocked_meta "abc" true true 5 false false
