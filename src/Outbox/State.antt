-- ===== src/Outbox/State.antt =====
-- tauceti_worker/github_outbox.py: an intent, the files of one outbox, and what GitHub replies.
-- Times are whole seconds. A command line is given as its regular expressions read it.
use tau_ceti_worker.Prelude.{
  string_eq, lookup, insert, if◌then◌else◌, erase, Dict, ℕ, none, some, true, false, Option, Bool,
  List, String,
}

-- Update is an API call with PATCH, PUT or DELETE, or of a reaction; local a command that
-- publishes nothing; comment a comment, a review or, with a number, a reply; create
-- the owner of the head, if repository and head are known.
pub data Operation : Type 0 where
  fork : Option String → Operation
  close update issue local other : Operation
  resolve : String → Operation
  create : Option String → Operation
  comment : Option String → Operation

pub data Status : Type 0 where
  prepared sending rejected ambiguous unnamed : Status

-- `context` with the keys that are read. A number that is absent is 0, unless its absence counts.
pub record Intent : Type 0 where
  pub operation : Operation
  pub destination : Option (String × ℕ)
  pub status : Status
  pub created : ℕ
  pub updated : Option ℕ
  pub retry_at : ℕ
  pub cwd : Option String
  pub body : Option String
  pub expected_head : Option String
  pub actor : Option String
  pub upstream : Option String
  pub upstream_id : Option ℕ
  pub fork : Option String
  pub fork_retries : ℕ
  pub fork_absent_since : Option ℕ

-- The files `*.json` (`none` is one that cannot be read as an intent), `*.failed` and `*.complete`.
pub record Outbox : Type 0 where
  pub intents : Dict String (Option Intent)
  pub failed : Dict String (Intent × String)
  pub complete : Dict String Intent

-- One request of a command, as the transport recorded it; an absent status is 0.
pub record Request : Type 0 where
  pub method : Option String
  pub reads : Bool
  pub status : ℕ
  pub remaining : Option ℕ

-- The `data` of a GraphQL answer.
pub data Content : Type 0 where
  nothing all_null partial : Content

-- What a command answered: its two texts in lower case, its GraphQL errors by type or code, the
-- recorded requests, and the marks that the transport set.
pub record Reply : Type 0 where
  pub success : Bool
  pub text : String
  pub errors : List (Option String)
  pub content : Content
  pub requests : List Request
  pub content_throttle : Bool
  pub retry_safe : Bool
  pub before_request : Bool

-- `archive`
unfoldable pub archive : String → Intent → String → Outbox → Outbox
archive path v reason box = record box {
  failed = insert path (v, reason) box.failed;
  intents = erase path box.intents;
}

unfoldable pub write : String → Intent → Outbox → Outbox
write path v box = record box { intents = insert path (some v) box.intents }

unfoldable pub remove : String → Outbox → Outbox
remove path box = record box { intents = erase path box.intents }

abbrev pub is_unsent : Status → Bool
is_unsent prepared = true
is_unsent rejected = true
is_unsent sending = false
is_unsent ambiguous = false
is_unsent unnamed = false

abbrev pub is_fork : Operation → Bool
is_fork (fork up) = true
is_fork close = false
is_fork update = false
is_fork issue = false
is_fork local = false
is_fork other = false
is_fork (resolve id) = false
is_fork (create who) = false
is_fork (comment reply) = false

abbrev pub is_resolution : Operation → Bool
is_resolution (resolve id) = true
is_resolution (fork up) = false
is_resolution close = false
is_resolution update = false
is_resolution issue = false
is_resolution local = false
is_resolution other = false
is_resolution (create who) = false
is_resolution (comment reply) = false

-- A command that modifies a local checkout, or only reads.
abbrev pub is_local : Operation → Bool
is_local local = true
is_local (fork up) = false
is_local close = false
is_local update = false
is_local issue = false
is_local other = false
is_local (resolve id) = false
is_local (create who) = false
is_local (comment reply) = false

abbrev pub is_update : Operation → Bool
is_update update = true
is_update (fork up) = false
is_update close = false
is_update issue = false
is_update local = false
is_update other = false
is_update (resolve id) = false
is_update (create who) = false
is_update (comment reply) = false

abbrev pub sendable : Option (Option Intent) → Bool
sendable none = false
sendable (some none) = false
sendable (some (some v)) = is_unsent v.status

-- `may_send`
unfoldable pub may_send : String → Outbox → Bool
may_send path box = sendable (lookup path box.intents)

-- `sending`: `none` is the exception of a superseded or pending publication.
unfoldable pub start_send : ℕ → Intent → String → Outbox → Option Outbox
unfolding write
start_send now v path box =
    if is_unsent v.status
    then some (write path (record v { status = sending; updated = some now }) box)
    else none

unfoldable pub begin_with : ℕ → String → Option (Option Intent) → Outbox → Option Outbox
unfolding start_send
begin_with now path none box = none
begin_with now path (some none) box = none
begin_with now path (some (some v)) box = start_send now v path box

unfoldable pub begin_sending : ℕ → String → Outbox → Option Outbox
unfolding begin_with
begin_sending now path box = begin_with now path (lookup path box.intents) box
