-- ===== src/Outbox/Drain.antt =====
-- tauceti_worker/github_outbox.py: `drain`, and the operator's two actions on an intent.
use tau_ceti_worker.Outbox.Reconcile.{reconcile}
use tau_ceti_worker.Prelude.{
  ◌||◌, ◌+◌, nat_eq, insert, string_eq, ltb, ◌&&◌, not, if◌then◌else◌, ◌==◌, ◌++◌, lookup, any, ℕ,
  none, some, false, Option, Bool, [], ◌∷◌, List, String,
}
use tau_ceti_worker.Outbox.Evidence.{
  Verdict, Evidence, applied, absent, obsolete, unavailable, unknown,
}
use tau_ceti_worker.Outbox.State.{
  is_local, is_unsent, is_resolution, is_fork, Reply, write, remove, archive, Outbox, Intent,
  sending, rejected, ambiguous,
}
use tau_ceti_worker.Outbox.Classify.{dispose, finish, Disposal, removed, archived, kept}

-- What one turn meets: the time, what GitHub shows, whether a directory exists, and what the command
-- answers; `none` is an error of the process.
pub record Turn : Type 0 where
  pub now : ℕ
  pub evidence : Evidence
  pub is_dir : String → Bool
  pub reply : Option Reply

-- The loop's state: the files, the intents that remain, and the targets that must wait; and the
-- intents whose command was run, the last first.
pub record Pass : Type 0 where
  pub box : Outbox
  pub remaining : List String
  pub blocked : List (String × ℕ)
  pub executed : List String

abbrev pub is_target : String × ℕ → String × ℕ → Bool
is_target (repository, number) (r, n) = repository == r && number == n

abbrev pub is_blocked : List (String × ℕ) → Option (String × ℕ) → Bool
is_blocked blocked none = false
is_blocked blocked (some d) = any (is_target d) blocked

-- A target that is not known blocks none.
abbrev pub block : Option (String × ℕ) → List (String × ℕ) → List (String × ℕ)
block none blocked = blocked
block (some d) blocked = d ∷ blocked

abbrev pub remain : String → Pass → Pass
remain path p = record p { remaining = p.remaining ++ path ∷ [] }

abbrev pub hold : String → Option (String × ℕ) → Pass → Pass
hold path d p = record p { remaining = p.remaining ++ path ∷ []; blocked = block d p.blocked }

unfoldable pub put_off : ℕ → String → Intent → Pass → Pass
unfolding write
put_off now path v p =
    if is_resolution v.operation
    then p
    else hold path v.destination (record p {
      box =
          write path
            (record v {
              retry_at =
                  now + (if is_fork v.operation && not (v.fork_retries == 0) then 3600 else 60);
            })
            p.box;
    })

-- The last part of a turn: `remaining` grows if the intent is still there.
abbrev pub close_turn : String → Intent → Disposal → Pass → Pass
close_turn path v removed p = p
close_turn path v (archived reason) p = p
close_turn path v (kept v') p = if is_resolution v.operation then p else hold path v.destination p

module _ (mentions : String → String → Bool) (is_sha : String → Bool)
    (plain : String → String) where
  unfoldable pub replied : Turn → String → Intent → Option Reply → Pass → Pass
  unfolding write finish dispose
  replied t path v none p =
      remain path (record p { box = write path (record v { status = ambiguous }) p.box })
  replied t path v (some r) p =
      let d = finish mentions t.now v r in
      close_turn path v d (record p { box = dispose path v d p.box })

  abbrev pub counted : Intent → Intent
  counted v = if is_fork v.operation then record v { fork_retries = v.fork_retries + 1 } else v

  unfoldable pub launch : Turn → String → Intent → Pass → Pass
  unfolding replied write
  launch t path v p =
      let v' = record v { status = sending } in
      replied t path v' t.reply
        (record p { box = write path v' p.box; executed = path ∷ p.executed })

  unfoldable pub send_from : Turn → String → Intent → Option String → Pass → Pass
  unfolding launch archive
  send_from t path v none p = remain path p
  send_from t path v (some cwd) p =
      if not (t.is_dir cwd)
      then record p { box = archive path v "Publication checkout no longer exists" p.box }
      else launch t path v p

  unfoldable pub send : Turn → String → Intent → Pass → Pass
  unfolding send_from
  send t path v p = send_from t path (counted v) v.cwd p

  unfoldable pub complete_intent : String → Intent → Outbox → Outbox
  unfolding remove
  complete_intent path v box =
      remove path
        (if is_fork v.operation then record box { complete = insert path v box.complete } else box)

  unfoldable pub judged : Turn → String → Verdict × Intent → Pass → Pass
  unfolding send put_off archive complete_intent
  judged t path (applied, v) p = record p { box = complete_intent path v p.box }
  judged t path (obsolete, v) p = record p {
    box = archive path v "Recorded PR head, ownership or pause changed" p.box;
  }
  judged t path (unavailable, v) p = record p {
    box = archive path v "Review-thread resolution unavailable" p.box;
  }
  judged t path (absent, v) p = send t path v p
  judged t path (unknown, v) p = put_off t.now path v p

  abbrev pub needs_reconciling : Intent → Bool
  needs_reconciling v =
      not (is_unsent v.status) || (is_resolution v.operation || is_fork v.operation)

  unfoldable pub turn_on : Turn → String → Intent → Pass → Pass
  unfolding judged send archive reconcile
  turn_on t path v p =
      if ltb t.now v.retry_at
      then hold path v.destination p
      else if is_blocked p.blocked v.destination
      then remain path p
      else if is_local v.operation
      then record p {
        box = archive path v "Read-only or local operation is not a GitHub publication" p.box;
      }
      else if needs_reconciling v
      then judged t path (reconcile is_sha plain t.now t.evidence v) p
      else send t path v p

  unfoldable pub turn_at : Turn → String → Option (Option Intent) → Pass → Pass
  unfolding turn_on
  turn_at t path none p = p
  turn_at t path (some none) p = remain path p
  turn_at t path (some (some v)) p = turn_on t path v p

  unfoldable pub drain_one : Turn → String → Pass → Pass
  unfolding turn_at
  drain_one t path p = turn_at t path (lookup path p.box.intents) p

  -- `drain`, on the paths in the order of their creation, each with what its turn meets.
  unfoldable pub drain : List (String × Turn) → Pass → Pass
  unfolding drain_one
  drain [] p = p
  drain ((path, t) ∷ rest) p = drain rest (drain_one t path p)

-- `main`: `abandon`, and `retry`, which acknowledges the risk of a duplicate.
unfoldable pub abandon : String → Intent → Outbox → Outbox
unfolding archive
abandon path v box = archive path v "Operator abandoned publication" box

unfoldable pub release : String → Intent → Outbox → Outbox
unfolding write
release path v box = write path (record v { status = rejected; retry_at = 0 }) box

-- A first attempt is `begin_sending`, the command, and `finish`: the lock of the intent is held in
-- the first and in the last, not between. An intent that is gone by then is an error, which leaves
-- the files as they are.
module _ (mentions : String → String → Bool) where
  unfoldable pub finished : ℕ → String → Option (Option Intent) → Reply → Outbox → Outbox
  unfolding finish dispose
  finished now path none r box = box
  finished now path (some none) r box = box
  finished now path (some (some v)) r box = dispose path v (finish mentions now v r) box

  -- `finish`
  unfoldable pub finish_attempt : ℕ → String → Reply → Outbox → Outbox
  unfolding finished
  finish_attempt now path r box = finished now path (lookup path box.intents) r box
