-- ===== src/Review/State.antt =====
-- tauceti_worker/review_state.py: the data of `ReviewState`, with the files of its cache directory.
-- A comment is its text; times are whole microseconds; a file that cannot be read is absent.
use tau_ceti_worker.Prelude.{ℕ, ◌*◌, String, Bool, Option, none, List, [], Dict}

abbrev pub second : ℕ
second = 1000000

-- SBCACHE_TTL, SBCACHE_BACKSTOP_S and COMMENTS_MEMO_S at their defaults.
abbrev pub cache_ttl : ℕ
cache_ttl = 120 * second

abbrev pub backstop : ℕ
backstop = 1800 * second

abbrev pub memo_time : ℕ
memo_time = 5 * second

-- The JSON of a scoreboard, by the keys that are read. A round count that is no integer is `none`;
-- absent texts are empty.
pub record Board : Type 0 where
  pub mode : String
  pub head_sha : String
  pub states : Dict String String
  pub runs : List String
  pub full_rounds : Option ℕ
  pub round : Option ℕ

abbrev pub empty_board : Board
empty_board = record {
  mode = "";
  head_sha = "";
  states = [];
  runs = [];
  full_rounds = none;
  round = none;
}

pub data Provenance : Type 0 where
  fresh assumed stale missing fetch_failed : Provenance

pub record Meta : Type 0 where
  pub board : Board
  pub provenance : Provenance

-- A row of the compact survey.
pub record Facts : Type 0 where
  pub issue_complete : Bool
  pub meta : Option Board
  pub review_complete : Bool
  pub contest : Option String

-- `<pr>.key.json` and `<pr>.contest.json`: what was read, at which clock of the PR, and when.
pub record Sidecar {ℓ} (A : Type ℓ) : Type ℓ where
  pub payload : A
  pub updated_at : String
  pub fetched_at : ℕ

-- github_transport.py: what `shared_read` stored of one read of a PR's comments.
pub record SharedRead : Type 0 where
  pub time : ℕ
  pub generation : String
  pub revision : String
  pub value : List String

abbrev pub shared_ttl : ℕ
shared_ttl = 30 * second

-- `<pr>.json`; `none` is a file that holds no JSON object.
pub record CacheFile : Type 0 where
  pub mtime : ℕ
  pub content : Option Board

-- The comments of a memo are `none` after a failed fetch. A key sidecar of `none` is "missing".
-- With it, the transport's cache that its reads go through: the issue and the review comments that
-- all workers of the host share, and the text of the generation files that they are checked against.
pub record ReviewState : Type 0 where
  pub facts : Dict ℕ Facts
  pub comments : Dict ℕ (ℕ × Option (List String))
  pub observed : Dict ℕ String
  pub shared_hit : Dict ℕ Bool
  pub cache : Dict ℕ CacheFile
  pub keys : Dict ℕ (Sidecar (Option Board))
  pub contests : Dict ℕ (Sidecar (Option String))
  pub shared_issue : Dict ℕ SharedRead
  pub shared_review : Dict ℕ SharedRead
  pub generation : String

-- What one read meets: the time, whether the shared state service is configured, whether the
-- directory can be written, the comments that GitHub answers a fetch with (`none` is a failed one),
-- and whether the transport marked that answer as cached; and whether a read may go through the
-- shared cache (the service did not answer, an identity is known, and neither a bypass
-- nor an outer demand for fresh reads is set), and whether
-- a new answer is stored there (it can be written, and its generation did not change meanwhile).
pub record Env : Type 0 where
  pub now : ℕ
  pub shared_service : Bool
  pub writable : Bool
  pub fetched : Option (List String)
  pub cache_hit : Bool
  pub sharing : Bool
  pub storing : Bool
