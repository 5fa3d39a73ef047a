-- ===== src/Budget/Ledger.antt =====
-- tauceti_worker/budget.py: `records`, `replay`, `current`, `accrue` and `append`.
-- A ledger line is its decoded record. The sqlite projection behind `current` is a cache of the
-- replay; the replay is what is modelled.
use tau_ceti_worker.Prelude.{
  ℕ, suc, ◌+◌, ◌-◌, ◌*◌, ◌/◌, max, String, Bool, Option, none, some, List, [], ◌∷◌, ◌++◌, lookup,
  insert, erase, nat_eq, string_eq, ◌==◌, if◌then◌else◌,
}
use tau_ceti_worker.Prelude.Int.{ℤ, pos, ◌+ℤ◌, ◌-ℤ◌}
use tau_ceti_worker.Budget.State.{
  hour, torn_ledger, invalid_record, invalid_event, Result, ok, err, ◌>>=◌, given, Status, Session,
  Amendment, LowerBound, Settlement, Event, Record, State, Store,
}

-- A line is accepted only if it has the next sequence number.
unfoldable pub numbered : ℕ → List Record → Bool
numbered n [] = Bool.true
numbered n (r ∷ rs) = let rest = numbered (suc n) rs in if r.seq == suc n then rest else Bool.false

unfoldable pub records : Store → Result (List Record)
records s =
    if s.torn
    then err torn_ledger
    else if numbered 0 s.ledger
    then ok s.ledger
    else err invalid_record

unfoldable pub initial : State
initial = record {
  balance = pos 0;
  rate = 0;
  spent = pos 0;
  watermark = 0;
  sessions = [];
  waiting = [];
  cooldowns = [];
  seq = 0;
}

abbrev pub or_else {ℓ} : {A : Type ℓ} → Option A → A → A
or_else none a = a
or_else (some b) a = b

abbrev pub or_keep {ℓ} : {A : Type ℓ} → Option A → Option A → Option A
or_keep none old = old
or_keep (some b) old = some b

unfoldable pub amend : Session → ℤ → Amendment → Session
amend s cost a = record s {
  cost = some cost;
  cost_provenance = or_keep a.cost_provenance s.cost_provenance;
  totals = or_else a.totals s.totals;
  recovery_audit = or_keep a.recovery_audit s.recovery_audit;
  finished = or_keep a.finished s.finished;
  recovery_manifest = or_keep a.recovery_manifest s.recovery_manifest;
}

-- An explicit finish time; otherwise the record's time, unless the settlement has a note.
unfoldable pub finish_time : ℕ → Settlement → Option ℕ
finish_time timestamp e = elim e.finished [
  | some t ↦ some t
  | none ↦ elim (given e.note) [ none ↦ some timestamp | some _ ↦ none ]
]

unfoldable pub settle_session : ℕ → Session → Settlement → Session
settle_session timestamp s e = record s {
  status = Status.settled;
  cost = some e.cost;
  outcome = some e.outcome;
  totals = e.totals;
  cost_provenance = some e.cost_provenance;
  finished = finish_time timestamp e;
  recovery_manifest = e.recovery_manifest;
  recovery_audit = e.recovery_audit;
}

unfoldable pub bound_session : Session → String → Option LowerBound → Session
bound_session s outcome none = s
bound_session s outcome (some b) = record s {
  reserve = some b.reserve;
  lower_bound_cost = some b.cost;
  lower_bound_totals = b.totals;
  outcome = some outcome;
  usage_checkpoint = or_keep b.usage_checkpoint s.usage_checkpoint;
  usage_tail = or_keep b.usage_tail s.usage_tail;
}

unfoldable pub unresolve_session : Session → String → Bool → Option ℕ → Option LowerBound → Session
unfolding bound_session
unresolve_session s outcome is_provisional finished bound =
    bound_session
      (record s {
        status = if is_provisional then Status.provisional else Status.unresolved;
        finished = or_keep finished s.finished;
      })
      outcome bound

-- `state["sessions"][id]`, a KeyError where it is missing, and a write of the session back.
unfoldable pub update_session : State → String → (Session → Session) → Result State
update_session st id f = elim (lookup id st.sessions) [
  | none ↦ err invalid_event
  | some s ↦ ok (record st { sessions = insert id (f s) st.sessions })
]

-- One step of `replay`; `timestamp` is that of the record that holds the event.
unfoldable pub apply : ℕ → State → Event → Result State
unfolding update_session
apply timestamp st (Event.accrue amount watermark) =
    ok (record st { balance = st.balance +ℤ amount; watermark = watermark })
apply timestamp st (Event.grant delta) = ok (record st { balance = st.balance +ℤ delta })
apply timestamp st (Event.set_grant delta) = ok (record st { balance = st.balance +ℤ delta })
apply timestamp st (Event.correction id delta cost a) =
    update_session (record st { balance = st.balance +ℤ delta; spent = st.spent -ℤ delta }) id
      (λ s. amend s cost a)
apply timestamp st (Event.rate amount) = ok (record st { rate = amount })
apply timestamp st (Event.wait w) = ok (record st { waiting = insert w.worker w st.waiting })
apply timestamp st (Event.admit s) =
    ok (record st { sessions = insert s.id s st.sessions; waiting = erase s.worker st.waiting })
apply timestamp st (Event.settle id e) = do
  st' ← update_session st id (λ s. settle_session timestamp s e)
  ok (record st' { balance = st'.balance -ℤ e.cost; spent = st'.spent +ℤ e.cost })
apply timestamp st (Event.unresolve id outcome is_provisional finished bound) =
    update_session st id (λ s. unresolve_session s outcome is_provisional finished bound)
apply timestamp st (Event.cooldown model until) =
    ok (record st { cooldowns = insert model until st.cooldowns })

unfoldable pub apply_all : ℕ → State → List Event → Result State
apply_all timestamp st [] = ok st
apply_all timestamp st (e ∷ es) = do st' ← apply timestamp st e; apply_all timestamp st' es

unfoldable pub apply_record : State → Record → Result State
apply_record st r = apply_all r.timestamp (record st { seq = r.seq }) r.events

unfoldable pub replay_from : State → List Record → Result State
replay_from st [] = ok st
replay_from st (r ∷ rs) = do st' ← apply_record st r; replay_from st' rs

unfoldable pub current : Store → Result State
current s = do rs ← records s; replay_from initial rs

-- `amount = (now - watermark) * rate / 3600`, rounded down to a nano-dollar.
unfoldable pub accrual : State → ℕ → ℤ
accrual st now = pos ((max st.watermark now - st.watermark) * st.rate / hour)

-- The state after `accrue`, and the event that it returns.
unfoldable pub accrued : State → ℕ → State
accrued st now = record st {
  balance = st.balance +ℤ accrual st now;
  watermark = max st.watermark now;
}

unfoldable pub accrue_event : State → ℕ → Event
accrue_event st now = Event.accrue (accrual st now) (max st.watermark now)

-- `append`: one more line, numbered after the state that was read.
unfoldable pub append : Store → State → ℕ → List Event → Store
append s st now events = record s {
  ledger = s.ledger ++ record { seq = st.seq + 1; timestamp = now; events = events } ∷ [];
}
