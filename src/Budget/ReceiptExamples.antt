-- ===== src/Budget/ReceiptExamples.antt =====
-- Small receipts: a first and a second one for an invocation, and a late one for an estimate.
use tau_ceti_worker.Budget.Telescope.{costs-spread, deltas-native_events, costs, deltas}
use tau_ceti_worker.Budget.Charges.{settle_receipt-settle_receipt, Costs}
use tau_ceti_worker.Budget.Booking.{
  settle_receipt, book_session, book, book_totals, charge, native_events, settle_native,
}
use tau_ceti_worker.Budget.Evidence.{
  Receipt, Totals, Supervision, lower_of, check_lower, check_totals, added,
}
use tau_ceti_worker.Budget.Cumulative.{
  spread, later_of, after, earlier, successors, related, baseline_of, raise_baseline, clamps,
  differences, is_estimate,
}
use tau_ceti_worker.Budget.Estimate.{max_ℤ, estimate, sessions, evidence, sorted, selected}
use tau_ceti_worker.Budget.Recovery.{
  Journal, Recovered, recover_usage, recover_session, is_running, recover_saved, complete_events,
  prefix_charge, is_charged, usage_reserve,
}
use tau_ceti_worker.Budget.Repeats.{recover_usage-recover_usage}
use tau_ceti_worker.Budget.Ledger.{
  apply, apply_all, apply_record, initial, replay_from, numbered, records, current, append,
  accrue_event, accrual, update_session, settle_session, finish_time, amend, unresolve_session,
  bound_session,
}
use tau_ceti_worker.Budget.State.{Event, ok, err, Result, Session, Status, Store, dollar}
use tau_ceti_worker.Prelude.{
  true, Option, lookup, insert, string_eq, false, none, some, List, [], ◌∷◌, ◌⊎◌, ◌≡◌, refl,
}
use tau_ceti_worker.Prelude.Int.{ℤ, pos, ◌+ℤ◌, ◌-ℤ◌}

abbrev session : Session
session = record {
  id = "i1";
  worker = "w1";
  model = "opus";
  phase = "fix";
  estimate = dollar;
  status = Status.active;
  started = 5;
  bridge = none;
  resume = none;
  owner = none;
  lifecycle = none;
  archive = none;
  cost = none;
  outcome = none;
  totals = [];
  cost_provenance = none;
  finished = none;
  recovery_manifest = none;
  recovery_audit = none;
  reserve = some dollar;
  lower_bound_cost = none;
  lower_bound_totals = [];
  usage_checkpoint = none;
  usage_tail = none;
}

abbrev priced : Session
priced = record session {
  status = Status.settled;
  cost = some (pos 9);
  cost_provenance = some "token-priced";
  totals = ("p", pos 9) ∷ [];
}

abbrev resumed : Session
resumed = record priced {
  id = "i2";
  cost = some (pos 6);
  cost_provenance = some "native-reported";
  totals = ("p", pos 15) ∷ [];
}

abbrev stored : Store
stored = record {
  ledger = record { seq = 1; timestamp = 5; events = Event.admit session ∷ [] } ∷ [];
  torn = false;
  queue = none;
}

abbrev supervision : Supervision
supervision = record { runs = λ x. false; has_messages = λ x. false; mentions_running = λ o. false }

abbrev receipt : Receipt
receipt = record {
  id = "i1";
  outcome = "completed";
  totals = Totals.amounts (("p", pos 7) ∷ []);
  provisional = false;
  lower_bound_totals = Totals.absent;
  finished = some 8;
}

abbrev second_receipt : Receipt
second_receipt = record receipt { totals = Totals.amounts (("p", pos 8) ∷ []) }

abbrev store_of : Result Store → Store
store_of (ok s) = s
store_of (err e) = stored

charged : Store
charged = store_of (settle_receipt supervision stored 9 receipt none)

charged_lem : settle_receipt supervision stored 9 receipt none ≡ ok charged
unfolding charged settle_receipt lower_of check_lower check_totals current records numbered
    replay_from apply_record apply_all apply initial lookup insert book_session is_estimate book
    related book_totals charge earlier baseline_of raise_baseline clamps added differences
    native_events settle_native max_ℤ ◌+ℤ◌ ◌-ℤ◌ append
charged_lem = refl

charged_twice : settle_receipt supervision charged 20 second_receipt none ≡ ok charged
unfolding charged settle_receipt lower_of check_lower check_totals current records numbered
    replay_from apply_record apply_all apply initial lookup insert book_session is_estimate book
    related book_totals charge earlier baseline_of raise_baseline clamps added differences
    native_events settle_native max_ℤ ◌+ℤ◌ ◌-ℤ◌ append accrue_event accrual update_session
    settle_session finish_time
charged_twice = refl

settle_receipt-settle_receipt_example :
    (charged ≡ charged) ⊎ ((c : ℤ) × Costs stored "i1" c × Costs charged "i1" c)
settle_receipt-settle_receipt_example =
    settle_receipt-settle_receipt supervision supervision stored charged charged 9 20 receipt
      second_receipt none none charged_lem charged_twice refl

costs-spread_example :
    (costs (spread "p" (pos 12) (pos 2) (pos 15) (pos 2) (priced ∷ resumed ∷ [])).1
      ≡ pos 12 -ℤ pos 2)
    × ((spread "p" (pos 12) (pos 2) (pos 15) (pos 2) (priced ∷ resumed ∷ [])).0 ≡ pos 12)
costs-spread_example = costs-spread "p" (pos 12) (pos 2) (pos 15) priced (resumed ∷ []) (pos 2)

abbrev events_of : Result (List Event) → List Event
events_of (ok es) = es
events_of (err e) = []

late : List Event
late =
    events_of
      (native_events receipt none priced (priced ∷ resumed ∷ []) (("p", pos 7) ∷ []) (pos 7))

late_lem :
    native_events receipt none priced (priced ∷ resumed ∷ []) (("p", pos 7) ∷ []) (pos 7) ≡ ok late
unfolding late native_events successors is_estimate later_of after ◌-ℤ◌
late_lem = refl

deltas-native_events_example : deltas late ≡ pos 0
unfolding later_of after is_estimate
deltas-native_events_example =
    deltas-native_events receipt none priced (priced ∷ resumed ∷ []) (("p", pos 7) ∷ []) (pos 7)
      late refl late_lem

abbrev journal : Journal
journal = record {
  saved = λ id. some (record {
    has_items = true;
    cost = pos 4;
    complete = false;
    stamp = λ c. "3:12:4";
    provider_session = none;
  });
  is_registered = λ x. false;
  invocation_alive = λ x. false;
  owner_alive = λ o. false;
}

abbrev recovered_of : Result (Store × Option Recovered) → Store
recovered_of (ok out) = out.0
recovered_of (err e) = stored

prefix_only : Store
prefix_only = recovered_of (recover_usage journal stored 20 "i1" none false false)

abbrev reserved : Recovered
reserved = record { complete = false; estimated = pos 4; reserve = dollar }

prefix_only_lem :
    recover_usage journal stored 20 "i1" none false false ≡ ok (prefix_only, some reserved)
unfolding prefix_only recover_usage recover_session is_running recover_saved complete_events
    prefix_charge is_charged usage_reserve estimate sessions current records numbered replay_from
    apply_record apply_all apply initial lookup insert append accrue_event accrual update_session
    amend unresolve_session bound_session ◌+ℤ◌ ◌-ℤ◌ max_ℤ evidence sorted selected
prefix_only_lem = refl

prefix_only_twice :
    recover_usage journal prefix_only 30 "i1" none false false ≡ ok (prefix_only, some reserved)
unfolding prefix_only recover_usage recover_session is_running recover_saved complete_events
    prefix_charge is_charged usage_reserve estimate sessions current records numbered replay_from
    apply_record apply_all apply initial lookup insert append accrue_event accrual update_session
    amend unresolve_session bound_session ◌+ℤ◌ ◌-ℤ◌ max_ℤ evidence sorted selected
prefix_only_twice = refl

recover_usage-recover_usage_example : (prefix_only ≡ stored) ⊎ (prefix_only ≡ prefix_only)
recover_usage-recover_usage_example =
    recover_usage-recover_usage journal journal stored prefix_only prefix_only 20 30 "i1" none none
      false false false false (some reserved) (some reserved) refl prefix_only_lem prefix_only_twice
