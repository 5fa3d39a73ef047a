-- ===== src/Outbox/Examples.antt =====
-- A comment whose acknowledgement is lost, and that the next pass finds on GitHub; and one that is
-- acknowledged.
use tau_ceti_worker.Outbox.Classify.{all_of, rejected_logically, rejected_records}
use tau_ceti_worker.Outbox.Reconcile.{reconcile}
use tau_ceti_worker.Outbox.Lifetime.{Reach-once}
use tau_ceti_worker.Outbox.Steps.{
  crashes, begins, drains, begins, crashes, finishes, start, next, Reach,
}
use tau_ceti_worker.Outbox.Evident.{drain_one-Accounted, Accounted}
use tau_ceti_worker.Outbox.Server.{IsHonest, IsIn, Shows}
use tau_ceti_worker.Outbox.Drain.{finish_attempt, drain_one, Turn, Pass}
use tau_ceti_worker.Prelude.{
  insert, string_eq, arith, subst, ◌<◌, erase, ◌≤◌, lookup, none, some, true, false, Bool, [], ◌∷◌,
  String, ◌≡◌, inl, refl,
}
use tau_ceti_worker.Outbox.State.{
  Reply, nothing, begin_sending, Outbox, Intent, prepared, sending, comment,
}
use tau_ceti_worker.Outbox.Evidence.{Listed, Evidence}

abbrev no_word : String → String → Bool
no_word word text = false

abbrev no_sha : String → Bool
no_sha s = false

abbrev same_text : String → String
same_text s = s

abbrev note : Intent
note = record {
  operation = comment none;
  destination = some ("r", 7);
  status = prepared;
  created = 100;
  updated = none;
  retry_at = 0;
  cwd = some "/w";
  body = some "hello";
  expected_head = none;
  actor = none;
  upstream = none;
  upstream_id = none;
  fork = none;
  fork_retries = 0;
  fork_absent_since = none;
}

abbrev box_one : Outbox
box_one = record { intents = ("p", some note) ∷ []; failed = []; complete = [] }

abbrev box_sent : Outbox
box_sent = record box_one {
  intents = ("p", some (record note { status = sending; updated = some 110 })) ∷ [];
}

abbrev box_done : Outbox
box_done = record box_one { intents = [] }

abbrev posted : Listed
posted = record {
  body = some "hello";
  login = "me";
  reply_to = none;
  at = some 111;
  is_pull = false;
}

abbrev found : Evidence
found = record {
  account = none;
  viewer = some "me";
  fork = none;
  closing = none;
  thread = none;
  pulls = none;
  listed = some (posted ∷ []);
}

abbrev later : Turn
later = record { now = 200; evidence = found; is_dir = λ d. true; reply = none }

abbrev pass : Pass
pass = record { box = box_sent; remaining = []; blocked = []; executed = [] }

inner : {v w : Intent} → some (some v) ≡ some (some w) → v ≡ w
inner h = cc

found-Shows :
    (v : Intent)
    → lookup "p" box_sent.intents ≡ some (some v)
    → 0 < 1
    → Shows no_sha same_text v.operation v found
unfolding Shows lookup
found-Shows v e n =
    subst (λ x. Shows no_sha same_text x.operation x found) (inner e)
      λ b w cs hb hw hc.
        let text : "hello" ≡ b = cc in
        let us : "me" ≡ w = cc in
        let list : posted ∷ [] ≡ cs = cc in
        (
          posted,
          subst (λ xs. IsIn posted xs) list (inl refl),
          refl,
          record {
            text = "hello";
            at = 111;
            has_text = refl;
            same_text = text;
            by_us = us;
            dated = refl;
            recent = omega arith;
          },
        )

sent_and_found : Reach no_word no_sha same_text "p" note box_done 1 false
unfolding begin_sending drain_one reconcile erase lookup insert
sent_and_found =
    next
      (next (next (start box_one refl refl) (begins 110 refl refl refl))
        (crashes true refl refl refl refl))
      (drains later false pass tt refl refl found-Shows refl refl refl)

-- A reply of success arrives, and the intent goes.
abbrev success : Reply
success = record {
  success = true;
  text = "";
  errors = [];
  content = nothing;
  requests = [];
  content_throttle = false;
  retry_safe = false;
  before_request = false;
}

success-IsHonest : IsHonest success true
unfolding rejected_records rejected_logically all_of
success-IsHonest = record {
  refused = λ h. absurd (cc);
  logical = λ h. absurd (cc);
  unrequested = λ h. absurd (cc);
  throttled = λ h. absurd (cc);
}

sent_and_answered : Reach no_word no_sha same_text "p" note box_done 1 false
unfolding begin_sending finish_attempt erase lookup insert
sent_and_answered =
    next (next (start box_one refl refl) (begins 110 refl refl refl))
      (finishes 111 success true success-IsHonest refl refl refl refl)

Reach-once_example : 1 ≤ 1
Reach-once_example =
    Reach-once no_word no_sha same_text "p" note box_done 1 false refl sent_and_found

drain_one-Accounted_example :
    Accounted "p"
      (reconcile no_sha same_text 200 found
        (record note { status = sending; updated = some 110 })).0
      none
      (drain_one no_word no_sha same_text later "p" pass)
unfolding lookup
drain_one-Accounted_example =
    drain_one-Accounted no_word no_sha same_text later "p"
      (record note { status = sending; updated = some 110 }) pass refl
