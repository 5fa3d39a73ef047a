-- ===== src/Budget/Booking.antt =====
-- tauceti_worker/budget.py: `settle_receipt`, the events of a receipt with totals, and the whole method.
use tau_ceti_worker.Prelude.{
  ◌&&◌, ◌||◌, ℕ, not, keys, lookup, String, string_eq, Bool, true, false, Option, none, some, List,
  [], ◌∷◌, ◌++◌, Dict, if◌then◌else◌, ◌==◌,
}
use tau_ceti_worker.Prelude.Int.{ℤ, pos, ◌-ℤ◌, ltb_ℤ}
use tau_ceti_worker.Budget.State.{
  Result, ok, err, ◌>>=◌, ◌>>◌, raise_if, Session, Event, State, Store, missing_totals,
  no_admission, usage_recorded, still_running, invalid_finish,
}
use tau_ceti_worker.Budget.Ledger.{current, append, accrue_event}
use tau_ceti_worker.Budget.Estimate.{cost_of, is_settled}
use tau_ceti_worker.Budget.Settlement.{no_amendment, same_amount, settle}
use tau_ceti_worker.Budget.Cumulative.{
  is_estimate, related, earlier, after, baseline_of, clamps, later_of, successors,
}
use tau_ceti_worker.Budget.Evidence.{
  Receipt, Supervision, is_absent, all_zero, lower_of, check_lower, check_totals, has_totals,
  invalid_time, added, bound_receipt,
}

unfoldable pub correct_native : Receipt → Session → Dict String ℤ → ℤ → Event
correct_native r x totals cost =
    Event.correction r.id (cost_of x -ℤ cost) cost (record no_amendment {
      cost_provenance = some "native-reported";
      totals = some totals;
      finished = r.finished;
    })

-- A token-priced prefix is taken back.
abbrev pub take_back : String → Session → List Event
take_back id x =
    if same_amount (cost_of x) (pos 0)
    then []
    else Event.correction id (cost_of x) (pos 0) no_amendment ∷ []

unfoldable pub settle_native : Receipt → Option String → Session → Dict String ℤ → ℤ → List Event
settle_native r remark x totals cost =
    take_back r.id x
    ++ Event.settle r.id (record {
      cost = cost;
      outcome = r.outcome;
      note = remark;
      totals = totals;
      cost_provenance = "native-reported";
      finished = r.finished;
      recovery_manifest = none;
      recovery_audit = none;
    })
      ∷ []

-- An estimate that is settled is corrected, and the sessions after it with it.
unfoldable pub native_events :
    Receipt → Option String → Session → List Session → Dict String ℤ → ℤ → Result (List Event)
unfolding correct_native settle_native later_of successors
native_events r remark x ordered totals cost =
    if is_settled x.status
    then (successors totals (cost -ℤ cost_of x) (later_of totals (after r.id ordered)) >>= λ later.
        ok (correct_native r x totals cost ∷ later))
    else ok (settle_native r remark x totals cost)

-- The events after the accrual; `none` where a total lies below its baseline.
unfoldable pub charge :
    Receipt → Option String → Session → List Session → Dict String ℤ → Option (Result (List Event))
unfolding earlier baseline_of clamps added native_events
charge r remark x ordered totals =
    let priors = earlier r.id ordered in
    let clamped = clamps priors (baseline_of [] priors) totals in
    elim (added clamped.0 totals) [
      | none ↦ none
      | some cost ↦
          some (native_events r remark x ordered totals cost >>= λ es. ok (clamped.1 ++ es))
    ]

-- The cost is left open where the receipt does not say it.
unfoldable pub leave_open : Store → ℕ → Receipt → Option String → Session → Result Store
unfolding settle
leave_open s now r remark x =
    if is_settled x.status
    then ok s
    else settle s now r.id none r.outcome remark [] "native-reported" r.finished

unfoldable pub book_totals :
    Store
    → State
    → ℕ
    → Receipt
    → Option String
    → Session
    → List Session
    → Dict String ℤ
    → Result Store
unfolding charge append leave_open
book_totals s st now r remark x ordered totals = elim (charge r remark x ordered totals) [
  | none ↦ leave_open s now r remark x
  | some events ↦ events >>= λ es. ok (append s st now (accrue_event st now ∷ es))
]

unfoldable pub book_bound :
    Store
    → State
    → ℕ
    → Receipt
    → Option String
    → Bool
    → Session
    → List Session
    → Dict String ℤ
    → Result Store
unfolding bound_receipt earlier baseline_of added leave_open
book_bound s st now r remark provisional x ordered [] = leave_open s now r remark x
book_bound s st now r remark provisional x ordered (a ∷ lower) =
    if is_settled x.status
    then ok s
    else elim (added (baseline_of [] (earlier r.id ordered)) (a ∷ lower)) [
      | none ↦ leave_open s now r remark x
      | some known ↦ bound_receipt s st now r x provisional (a ∷ lower) known
    ]

unfoldable pub book :
    Store
    → State
    → ℕ
    → Receipt
    → Option String
    → Bool
    → Session
    → Option (Dict String ℤ)
    → Dict String ℤ
    → Result Store
unfolding related book_totals book_bound
book s st now r remark provisional x none lower =
    book_bound s st now r remark provisional x (related st (keys lower) r.id) lower
book s st now r remark provisional x (some totals) lower =
    book_totals s st now r remark x (related st (keys totals ++ keys lower) r.id) totals

-- A receipt of no inference, for an invocation that is known to have used some.
abbrev pub contradicted : Supervision → Receipt → Option (Dict String ℤ) → Session → Bool
contradicted v r none x = false
contradicted v r (some totals) x =
    r.outcome == "launch-failed"
    && all_zero totals
    && (ltb_ℤ (pos 0) (cost_of x) || v.has_messages x)

abbrev pub is_native : Session → Bool
is_native x = is_settled x.status && not (is_estimate x.cost_provenance)

unfoldable pub book_session :
    Supervision
    → Store
    → State
    → ℕ
    → Receipt
    → Option String
    → Bool
    → Option (Dict String ℤ)
    → Dict String ℤ
    → Option Session
    → Result Store
unfolding book is_estimate
book_session v s st now r remark provisional totals lower none = err no_admission
book_session v s st now r remark provisional totals lower (some x) = do
  raise_if (contradicted v r totals x) usage_recorded
  raise_if (has_totals totals && v.runs x) still_running
  elim (is_native x) [
    | true ↦ ok s
    | false ↦
        raise_if (invalid_time x now r.finished) invalid_finish
        >> book s st now r remark provisional x totals lower
  ]

-- `settle_receipt`
unfoldable pub settle_receipt : Supervision → Store → ℕ → Receipt → Option String → Result Store
unfolding lower_of check_lower check_totals book_session
settle_receipt v s now r remark =
    let provisional = r.provisional || v.mentions_running r.outcome in
    do
      raise_if (is_absent r.totals) missing_totals
      lower ← check_lower (lower_of provisional r)
      totals ← check_totals provisional r.totals
      st ← current s
      book_session v s st now r remark provisional totals lower (lookup r.id st.sessions)
