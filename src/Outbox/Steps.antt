-- ===== src/Outbox/Steps.antt =====
-- The steps in the life of one publication: attempts, crashes, passes and abandonment.
use tau_ceti_worker.Outbox.Server.{Shows}
use tau_ceti_worker.Outbox.Turns.{AnswersHonestly}
use tau_ceti_worker.Outbox.Once.{count}
use tau_ceti_worker.Outbox.Drain.{finish_attempt, abandon, drain_one, Turn, Pass}
use tau_ceti_worker.Prelude.{
  true, ◌<◌, ◌+◌, length, string_eq, ltb, lookup, if◌then◌else◌, ℕ, none, some, false, Bool, String,
  ◌≡◌,
}
use tau_ceti_worker.Outbox.State.{write, begin_sending, Reply, Outbox, Intent, prepared, sending}

-- What a turn added: the effect of its command, if it ran one.
abbrev pub effect : Pass → Pass → Bool → ℕ
effect p p' did = if ltb (length p.executed) (length p'.executed) then count did else 0

module _ (mentions : String → String → Bool) (is_sha : String → Bool) (plain : String → String)
    (path : String) where
  -- The number counts how often the command took effect; the flag tells that a first attempt runs
  -- its command, which holds no lock: `begins` and `finishes` are the two times that it holds one, and
  -- in between the outbox may change. What the command does has happened when the attempt
  -- ends. A pass holds the lock for its whole turn; that it takes up no intent whose first command
  -- still runs is a condition here, since the code does not prevent it. The operator's
  -- `retry`, which acknowledges the risk of a duplicate, is not a step.
  pub data Step (box : Outbox) (n : ℕ) (running : Bool) (box' : Outbox) (n' : ℕ) (running' : Bool)
      : Type 0 where
    begins :
        (now : ℕ)
        → begin_sending now path box ≡ some box'
        → n' ≡ n
        → running' ≡ true
        → Step box n running box' n' running'
    finishes :
        (now : ℕ) (r : Reply) (did : Bool)
        → AnswersHonestly (some r) did
        → running ≡ true
        → box' ≡ finish_attempt mentions now path r box
        → n' ≡ n + count did
        → running' ≡ false
        → Step box n running box' n' running'
    crashes :
        (did : Bool)
        → running ≡ true
        → box' ≡ box
        → n' ≡ n + count did
        → running' ≡ false
        → Step box n running box' n' running'
    drains :
        (t : Turn) (did : Bool) (p : Pass)
        → AnswersHonestly t.reply did
        → running ≡ false
        → running' ≡ running
        → ((v : Intent)
            → lookup path box.intents ≡ some (some v)
            → 0 < n
            → Shows is_sha plain v.operation v t.evidence)
        → p.box ≡ box
        → (drain_one mentions is_sha plain t path p).box ≡ box'
        → n' ≡ n + effect p (drain_one mentions is_sha plain t path p) did
        → Step box n running box' n' running'
    -- The process ends while a pass runs the command: the intent is left as it was launched.
    interrupted :
        (t : Turn) (did : Bool) (p : Pass) (v : Intent)
        → t.reply ≡ none
        → running ≡ false
        → running' ≡ running
        → ((w : Intent)
            → lookup path box.intents ≡ some (some w)
            → 0 < n
            → Shows is_sha plain w.operation w t.evidence)
        → p.box ≡ box
        → ltb (length p.executed) (length (drain_one mentions is_sha plain t path p).executed)
          ≡ true
        → lookup path (drain_one mentions is_sha plain t path p).box.intents ≡ some (some v)
        → box'
          ≡ write path
              (record v { status = sending })
              (drain_one mentions is_sha plain t path p).box
        → n' ≡ n + effect p (drain_one mentions is_sha plain t path p) did
        → Step box n running box' n' running'
    abandons :
        (v : Intent)
        → lookup path box.intents ≡ some (some v)
        → box' ≡ abandon path v box
        → n' ≡ n
        → running' ≡ running
        → Step box n running box' n' running'
    elsewhere :
        lookup path box'.intents ≡ lookup path box.intents
        → n' ≡ n
        → running' ≡ running
        → Step box n running box' n' running'

  pub data Reach (v : Intent) : Outbox → ℕ → Bool → Type 0 where
    start :
        (box : Outbox)
        → lookup path box.intents ≡ some (some v)
        → v.status ≡ prepared
        → Reach v box 0 false
    next :
        {box box' : Outbox} {n n' : ℕ} {running running' : Bool}
        → Reach v box n running
        → Step box n running box' n' running'
        → Reach v box' n' running'
