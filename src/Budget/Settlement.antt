-- ===== src/Budget/Settlement.antt =====
-- tauceti_worker/budget.py: `configure`, `settle`, `reconcile`, `cooldown` and `repair`.
use tau_ceti_worker.Prelude.{
  true, ℕ, ◌+◌, ◌*◌, max, String, Bool, false, not, ◌&&◌, ◌||◌, Option, none, some, List, [], ◌∷◌,
  ◌++◌, lookup, string_eq, leb, if◌then◌else◌,
}
use tau_ceti_worker.Prelude.Int.{ℤ, pos, negsuc, ◌-ℤ◌, ltb_ℤ}
use tau_ceti_worker.Budget.State.{
  Record, second, negative_cost, unknown_invocation, conflicting_receipt, exclusive_grants,
  grant_not_positive, negative_rate, note_required, live_bridge, nothing_torn, invalid_record,
  Result, ok, err, ◌>>=◌, ◌>>◌, raise_if, given, Status, Session, Amendment, Event, State, Store,
}
use tau_ceti_worker.Budget.Ledger.{
  numbered, initial, replay_from, current, or_else, accrued, accrue_event, append,
}
use tau_ceti_worker.Budget.Estimate.{is_settled, cost_of}
use tau_ceti_worker.Budget.Admission.{World, Request, admitted, is_some}

abbrev pub not_positive : Option ℤ → Bool
not_positive none = false
not_positive (some a) = not (ltb_ℤ (pos 0) a)

abbrev pub is_negative : Option ℤ → Bool
is_negative none = false
is_negative (some a) = ltb_ℤ a (pos 0)

abbrev pub grant_events : Option ℤ → List Event
grant_events none = []
grant_events (some a) = Event.grant a ∷ []

abbrev pub target_events : ℤ → Option ℤ → List Event
target_events balance none = []
target_events balance (some target) = Event.set_grant (target -ℤ balance) ∷ []

abbrev pub rate_events : Option ℤ → List Event
rate_events none = []
rate_events (some (pos n)) = Event.rate n ∷ []
rate_events (some (negsuc n)) = []  -- refused above

unfoldable pub configure_events : State → ℕ → Option ℤ → Option ℤ → Option ℤ → List Event
configure_events st now grant set_grant rate =
    grant_events grant ++ (target_events (accrued st now).balance set_grant ++ rate_events rate)

-- `configure`, up to the snapshot that it returns.
unfoldable pub configure : Store → ℕ → Option ℤ → Option ℤ → Option ℤ → Result Store
unfolding append configure_events
configure s now grant set_grant rate = do
  raise_if (is_some grant && is_some set_grant) exclusive_grants
  raise_if (not_positive grant) grant_not_positive
  raise_if (is_negative rate) negative_rate
  st ← current s
  ok (append s st now (accrue_event st now ∷ configure_events st now grant set_grant rate))

abbrev pub no_amendment : Amendment
no_amendment = record {
  cost_provenance = none;
  totals = none;
  recovery_audit = none;
  finished = none;
  recovery_manifest = none;
}

-- A cost that an estimated prefix already charged is taken back before the settlement.
unfoldable pub prefix_events : String → Session → List Event
prefix_events id x = elim x.cost [
  | none ↦ []
  | some c ↦ Event.correction id c (pos 0) no_amendment ∷ []
]

-- The events after the accrual for an invocation that is not yet settled.
unfoldable pub settle_events :
    String
    → Session
    → Option ℤ
    → String
    → Option String
    → List (String × ℤ)
    → String
    → Option ℕ
    → List Event
unfolding prefix_events
settle_events id x none outcome remark totals provenance finished =
    Event.unresolve id outcome false finished none ∷ []
settle_events id x (some c) outcome remark totals provenance finished =
    prefix_events id x
    ++ Event.settle id (record {
      cost = c;
      outcome = outcome;
      note = remark;
      totals = totals;
      cost_provenance = provenance;
      finished = finished;
      recovery_manifest = none;
      recovery_audit = none;
    })
      ∷ []

abbrev pub same_amount : ℤ → ℤ → Bool
same_amount a b = not (ltb_ℤ a b) && not (ltb_ℤ b a)

abbrev pub contradicts : Option ℤ → Session → Bool
contradicts none x = false
contradicts (some c) x = not (same_amount (cost_of x) c)

unfoldable pub settle_session_of :
    Store
    → State
    → ℕ
    → String
    → Option ℤ
    → String
    → Option String
    → List (String × ℤ)
    → String
    → Option ℕ
    → Option Session
    → Result Store
unfolding append settle_events
settle_session_of s st now id cost outcome remark totals provenance finished none =
    err unknown_invocation
settle_session_of s st now id cost outcome remark totals provenance finished (some x) =
    if is_settled x.status
    then if contradicts cost x then err conflicting_receipt else ok s
    else ok (
        append s st now
          (accrue_event st now ∷ settle_events id x cost outcome remark totals provenance finished))

-- `settle`; a cost of `none` is an invocation whose cost is not known.
unfoldable pub settle :
    Store
    → ℕ
    → String
    → Option ℤ
    → String
    → Option String
    → List (String × ℤ)
    → String
    → Option ℕ
    → Result Store
unfolding settle_session_of
settle s now id cost outcome remark totals provenance finished = do
  raise_if (is_negative cost) negative_cost
  st ← current s
  settle_session_of s st now id cost outcome remark totals provenance finished
      (lookup id st.sessions)

-- The session that stands for what a torn line may have held.
unfoldable pub repair_events : ℕ → String → String → List Event
unfolding admitted
repair_events now archive fresh =
    let request : Request = record {
      invocation = fresh;
      worker = "ledger-repair";
      model = "unknown";
      phase = "repair";
      bridge = none;
      resume = none;
      owner = none;
      lifecycle = none;
      ticket = 0;
    } in
    Event.admit
      (record (admitted request now (pos 0)) { status = Status.unresolved; archive = some archive })
    ∷ []

abbrev pub has_lines : List Record → Bool
has_lines [] = false
has_lines (r ∷ rs) = true

-- `not note.strip()`: the texts that are blank are a parameter.
module _ (blank : String → Bool) where
  abbrev pub bridge_is_live : World → ℕ → Session → Bool
  bridge_is_live w now x = elim (given x.bridge) [
    | none ↦ false
    | some bridge ↦ elim (w.heartbeat bridge) [
      | none ↦ w.invocation_alive x
      | some mtime ↦ leb now (mtime + 30 * second) || w.invocation_alive x
    ]
  ]

  unfoldable pub reconcile_events : String → Session → ℤ → String → List Event
  unfolding prefix_events
  reconcile_events id x c note =
      if is_settled x.status
      then Event.correction id (cost_of x -ℤ c) c no_amendment ∷ []
      else prefix_events id x
        ++ Event.settle id (record {
          cost = c;
          outcome = "reconciled";
          note = some note;
          totals = [];
          cost_provenance = "native-reported";
          finished = none;
          recovery_manifest = none;
          recovery_audit = none;
        })
          ∷ []

  unfoldable pub reconcile_session :
      World → Store → State → ℕ → String → ℤ → String → Option Session → Result Store
  unfolding reconcile_events append
  reconcile_session w s st now id c note none = err unknown_invocation
  reconcile_session w s st now id c note (some x) = do
    raise_if (not (is_settled x.status) && bridge_is_live w now x) live_bridge
    ok (append s st now (accrue_event st now ∷ reconcile_events id x c note))

  unfoldable pub reconcile : World → Store → ℕ → String → ℤ → String → Result Store
  unfolding reconcile_session
  reconcile w s now id c note = do
    raise_if (blank note) note_required
    raise_if (is_negative (some c)) negative_cost
    st ← current s
    reconcile_session w s st now id c note (lookup id st.sessions)

  -- `repair`: the torn tail is archived, and the verified prefix goes on with an unresolved
  -- session that blocks admissions. `archive` and `fresh` are the names that it draws. A ledger
  -- without a line is an empty file, which ends in no newline; without a file nothing is repaired.
  unfoldable pub repair : Store → ℕ → String → String → String → Result Store
  unfolding append repair_events
  repair s now archive fresh note = do
    raise_if (blank note) note_required
    raise_if (not s.torn && has_lines s.ledger) nothing_torn
    raise_if (not (numbered 0 s.ledger)) invalid_record
    st ← replay_from initial s.ledger
    ok (
        append (record s { torn = false }) st now
          (accrue_event st now ∷ repair_events now archive fresh))

-- `cooldown`; a negative delay is given as 0.
unfoldable pub cooldown : Store → ℕ → String → ℕ → Result Store
unfolding append
cooldown s now model delay = do
  st ← current s
  let until = max (or_else (lookup model st.cooldowns) 0) (now + delay)
  ok (append s st now (accrue_event st now ∷ Event.cooldown model until ∷ []))
