-- ===== src/Budget/Admission.antt =====
-- tauceti_worker/budget.py: `orphaned_bridge` and `admit`, the atomic admission of an invocation.
use tau_ceti_worker.Prelude.{
  ℕ, ◌+◌, ◌*◌, ◌++◌, String, Bool, true, false, not, ◌&&◌, ◌||◌, Option, none, some, List, [], ◌∷◌,
  lookup, insert, erase, values, keys, any, map, filter, nat_eq, string_eq, ltb, contains, ◌==◌,
  if◌then◌else◌,
}
use tau_ceti_worker.Prelude.Int.{ℤ, pos, ◌+ℤ◌, ◌-ℤ◌, ltb_ℤ}
use tau_ceti_worker.Budget.State.{
  second, launched_twice, no_baseline, Result, ok, ◌>>=◌, ◌>>◌, raise_if, given, Status, Session,
  Waiter, Event, State, Store,
}
use tau_ceti_worker.Budget.Ledger.{current, or_else, accrued, accrue_event, append}
use tau_ceti_worker.Budget.Estimate.{is_active, sessions, every, estimate}
use tau_ceti_worker.Budget.Queue.{
  waiting_for_funding, behind_another, waiting_state, save_waiting, previous_of, first_waiter,
  waiting_entry,
}

-- What the operating system answers: when a bridge directory's heartbeat was last written, and
-- whether a recorded bridge owner or the process of a session is alive.
pub record World : Type 0 where
  pub heartbeat : String → Option ℕ
  pub owner_alive : Option String → Bool
  pub invocation_alive : Session → Bool

-- The arguments of `admit`, with the fresh ticket that it draws.
pub record Request : Type 0 where
  pub invocation : String
  pub worker : String
  pub model : String
  pub phase : String
  pub bridge : Option String
  pub resume : Option String
  pub owner : Option String
  pub lifecycle : Option String
  pub ticket : ℕ

pub data Answer : Type 0 where
  allowed : (amount : ℤ) → Answer
  refused : (reason : String) → (amount balance : ℤ) → Answer

-- No heartbeat for thirty seconds.
unfoldable pub is_stale : World → ℕ → String → Bool
is_stale w now bridge = elim (w.heartbeat bridge) [
  | none ↦ true
  | some mtime ↦ ltb (mtime + 30 * second) now
]

unfoldable pub orphaned_bridge : World → ℕ → Session → Bool
unfolding is_stale
orphaned_bridge w now s = elim (given s.bridge) [
  | none ↦ false
  | some bridge ↦ is_active s.status && is_stale w now bridge && not (w.owner_alive s.owner)
]

-- `related(state, [provider])`
unfoldable pub is_related : String → Session → Bool
is_related provider s =
    contains provider (keys s.totals) || elim s.resume [ none ↦ false | some r ↦ r == provider ]

unfoldable pub has_baseline : State → String → Bool
unfolding is_related
has_baseline st provider =
    any (λ s. contains provider (keys s.totals)) (filter (is_related provider) (values st.sessions))

-- The loop over the active sessions: an orphan is marked, and an event says so.
unfoldable pub mark_orphan : World → ℕ → Session → Session
mark_orphan w now s = if orphaned_bridge w now s then record s { status = Status.unresolved } else s

unfoldable pub orphan_events : World → ℕ → List Session → List Event
orphan_events w now [] = []
orphan_events w now (s ∷ ss) =
    let rest = orphan_events w now ss in
    if orphaned_bridge w now s
    then Event.unresolve s.id "bridge disappeared" false none none ∷ rest
    else rest

-- `money(s.get("reserve", s["estimate"]))`
abbrev pub held : Session → ℤ
held s = or_else s.reserve s.estimate

unfoldable pub total_held : List Session → ℤ
total_held [] = pos 0
total_held (s ∷ ss) = held s +ℤ total_held ss

unfoldable pub pending : State → ℤ
unfolding total_held
pending st = total_held (sessions (record every { active = true }) st)

abbrev resumes : String → Session → Bool
resumes provider s = elim s.resume [ none ↦ false | some r ↦ r == provider ]

unfoldable pub resume_reason : Option String → List Session → List Session → Option String
resume_reason none active live = none
resume_reason (some provider) active live =
    if any (resumes provider) active
    then if any (resumes provider) live
      then some "provider session already being resumed"
      else some "provider session cost baseline unresolved"
    else none

abbrev is_empty : List ℤ → Bool
is_empty [] = true
is_empty (c ∷ cs) = false

abbrev is_archived : Session → Bool
is_archived s = elim (given s.archive) [ none ↦ false | some a ↦ true ]

abbrev someone_else : String → Option Waiter → Bool
someone_else worker none = false
someone_else worker (some w) = not (w.worker == worker)

-- The ladder of tests that names the first reason to refuse.
unfoldable pub refusal :
    State
    → ℕ
    → Request
    → List Session
    → List Session
    → List ℤ × ℤ
    → ℤ
    → Option Waiter
    → Option String
unfolding resume_reason
refusal st now r active live (costs, amount) available first =
    if any is_archived active
    then some "ledger repair requires reconciliation"
    else elim (resume_reason (given r.resume) active live) [
      | some reason ↦ some reason
      | none ↦
          if ltb now (or_else (lookup r.model st.cooldowns) 0)
          then some "API throughput cooldown"
          else if is_empty costs && any (λ s. s.model == r.model) live
          then some "waiting for calibration session cost"
          else if not (ltb_ℤ (pos 0) available) || ltb_ℤ available amount
          then some waiting_for_funding
          else if someone_else r.worker first
          then some behind_another
          else none
    ]

-- The session that an admission records.
unfoldable pub admitted : Request → ℕ → ℤ → Session
admitted r now amount = record {
  id = r.invocation;
  worker = r.worker;
  model = r.model;
  phase = r.phase;
  estimate = amount;
  status = Status.active;
  started = now;
  bridge = r.bridge;
  resume = r.resume;
  owner = r.owner;
  lifecycle = given r.lifecycle;
  archive = none;
  cost = none;
  outcome = none;
  totals = [];
  cost_provenance = none;
  finished = none;
  recovery_manifest = none;
  recovery_audit = none;
  reserve = none;
  lower_bound_cost = none;
  lower_bound_totals = [];
  usage_checkpoint = none;
  usage_tail = none;
}

-- `previous.get("reason") != reason or len(events) > 1`
unfoldable pub is_news : Option Waiter → String → List Event → Bool
is_news none reason orphans = true
is_news (some w) reason [] = not (w.reason == reason)
is_news (some w) reason (e ∷ es) = true

unfoldable pub refuse :
    Store → State → ℕ → Request → Option Waiter → List Event → String → ℤ → Store
unfolding save_waiting waiting_state waiting_entry is_news append
refuse s st now r previous orphans reason amount =
    let entry = waiting_entry r.worker r.model r.ticket now previous reason amount in
    let saved = save_waiting s (insert r.worker entry (waiting_state s st)) in
    if is_news previous reason orphans
    then append saved st now (accrue_event st now ∷ orphans ++ Event.wait entry ∷ [])
    else saved

unfoldable pub enter : Store → State → ℕ → Request → List Event → ℤ → Store
unfolding append save_waiting waiting_state admitted
enter s st now r orphans amount =
    save_waiting
      (append s st now (accrue_event st now ∷ orphans ++ Event.admit (admitted r now amount) ∷ []))
      (erase r.worker (waiting_state s st))

unfoldable pub conclude :
    Store
    → State
    → ℕ
    → Request
    → Option Waiter
    → List Event
    → ℤ
    → ℤ
    → Option String
    → Store × Answer
unfolding refuse enter
conclude s st now r previous orphans amount balance (some reason) =
    (refuse s st now r previous orphans reason amount, refused reason amount balance)
conclude s st now r previous orphans amount balance none =
    (enter s st now r orphans amount, allowed amount)

abbrev pub is_some {ℓ} : {A : Type ℓ} → Option A → Bool
is_some none = false
is_some (some a) = true

abbrev pub lacks_baseline : State → Option String → Bool
lacks_baseline st none = false
lacks_baseline st (some provider) = not (has_baseline st provider)

-- Everything that `admit` computes from the state after the guards.
unfoldable pub decide : World → Store → State → ℕ → Request → Store × Answer
decide w s st₀ now r =
    let st = accrued st₀ now in
    let active = sessions (record every { active = true }) st in
    let marked = map (mark_orphan w now) active in
    let priced = estimate st r.model (some r.phase) true in
    let available = st.balance -ℤ total_held active in
    let queue = waiting_state s st in
    let live = filter (λ x. is_active x.status) marked in
    conclude s st₀ now r (previous_of now (lookup r.worker queue)) (orphan_events w now active)
      priced.1 st.balance
      (refusal st now r marked live priced available (first_waiter now r.model queue))

unfoldable pub admit : World → Store → ℕ → Request → Result (Store × Answer)
unfolding decide has_baseline
admit w s now r = do
  st ← current s
  raise_if (is_some (lookup r.invocation st.sessions)) launched_twice
  raise_if (lacks_baseline st (given r.resume)) no_baseline
  ok (decide w s st now r)
