-- ===== src/Outbox/Forks.antt =====
-- tauceti_worker/github_outbox.py: `reconcile` for a fork.
use tau_ceti_worker.Outbox.State.{Intent}
use tau_ceti_worker.Prelude.{
  ◌||◌, ◌+◌, not, ltb, ◌&&◌, string_eq, nat_eq, if◌then◌else◌, ◌==◌, ℕ, none, some, true, false,
  Option, Bool, String,
}
use tau_ceti_worker.Outbox.Evidence.{Verdict, ForkEvidence, applied, absent, unknown}

abbrev pub first_some : Option String → Option String → Option String
first_some none b = b
first_some (some a) b = some a

abbrev pub is_same : Option String → String → Bool
is_same none s = false
is_same (some t) s = t == s

abbrev pub is_same_id : Option ℕ → ℕ → Bool
is_same_id none n = true
is_same_id (some m) n = m == n

abbrev pub is_same_or_unset : Option String → String → Bool
is_same_or_unset none s = true
is_same_or_unset (some t) s = t == s

abbrev pub since : ℕ → Intent → ℕ
since now v = elim v.updated [ some at ↦ at | none ↦ if v.created == 0 then now else v.created ]

-- A fork that is not there: two observations five minutes apart allow at most one replay.
unfoldable pub absent_fork : ℕ → ℕ → ℕ → Intent → Verdict × Intent
absent_fork now observed first v = (
  (if ltb observed (first + 300) || (ltb now (since now v + 300) || not (v.fork_retries == 0))
      then unknown
      else absent),
  record v { fork_absent_since = some first },
)

abbrev pub or_observed : ℕ → Option ℕ → ℕ
or_observed observed none = observed
or_observed observed (some first) = first

unfoldable pub observe_fork : ℕ → ForkEvidence → Option String → Intent → Verdict × Intent
unfolding absent_fork
observe_fork now e (some found) v = (applied, record v { fork = some found })
observe_fork now e none v =
    if not e.absent
    then (unknown, v)
    else absent_fork now e.observed_at (or_observed e.observed_at v.fork_absent_since) v

abbrev pub is_identified : Option String → String → ForkEvidence → Intent → Bool
is_identified account up e v =
    (is_same (first_some v.actor account) e.actor && is_same_id v.upstream_id e.upstream_id)
    && is_same_or_unset v.upstream up

unfoldable pub reconcile_fork :
    ℕ → Option String → String → Option ForkEvidence → Intent → Verdict × Intent
unfolding observe_fork
reconcile_fork now account up none v = (unknown, v)
reconcile_fork now account up (some e) v =
    if not (is_identified account up e v)
    then (unknown, v)
    else observe_fork now e e.fork
        (record v { actor = some e.actor; upstream = some up; upstream_id = some e.upstream_id })
