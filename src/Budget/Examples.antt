-- ===== src/Budget/Examples.antt =====
-- A small run of the budget: a grant, an admission, its settlement, and a second one.
use tau_ceti_worker.Budget.Quartile.{estimate-covers, covers}
use tau_ceti_worker.Budget.Receipts.{settle-settle}
use tau_ceti_worker.Budget.Books.Conservation.{replay-conserves, credited}
use tau_ceti_worker.Budget.Queue.{previous_of, waiting_state, first_waiter}
use tau_ceti_worker.Budget.Estimate.{cost_of, sorted, estimate, sessions}
use tau_ceti_worker.Budget.Funds.Admitted.{admit-covered}
use tau_ceti_worker.Budget.Ledger.{
  append, accrued, apply, apply_all, apply_record, accrual, accrue_event, initial, replay_from,
  numbered, records, current,
}
use tau_ceti_worker.Budget.Books.Reach.{Reach-books, Step, Reach, fresh_store}
use tau_ceti_worker.Budget.State.{
  dollar, conflicting_receipt, Event, Record, err, ok, Store, State, Result,
}
use tau_ceti_worker.Budget.Settlement.{cooldown, settle, configure}
use tau_ceti_worker.Budget.Admission.{
  allowed, orphaned_bridge, conclude, refusal, mark_orphan, total_held, orphan_events, decide,
  pending, admit, Answer, World, Request,
}
use tau_ceti_worker.Prelude.Sums.{sum_by}
use tau_ceti_worker.Prelude.{
  List, ◌≤◌, ◌*◌, length, ◌∷◌, insert, ◌≡◌, Bool, String, refl, none, some, [], false, true,
  string_eq, lookup,
}
use tau_ceti_worker.Prelude.Int.{◌-ℤ◌, pos, ◌≤ℤ◌, ◌+ℤ◌}

abbrev world : World
world = record { heartbeat = λ b. some 0; owner_alive = λ o. true; invocation_alive = λ s. false }

abbrev not_blank : String → Bool
not_blank s = false

abbrev request : Request
request = record {
  invocation = "i1";
  worker = "w1";
  model = "opus";
  phase = "fix";
  bridge = some "b1";
  resume = none;
  owner = none;
  lifecycle = none;
  ticket = 7;
}

abbrev store_of : Result Store → Store
store_of (ok s) = s
store_of (err e) = fresh_store

abbrev admitted_of : Result (Store × Answer) → Store
admitted_of (ok out) = out.0
admitted_of (err e) = fresh_store

funded : Store
funded = store_of (configure fresh_store 1000 (some (pos 10000000000)) none (some (pos 3600)))

funded_lem : configure fresh_store 1000 (some (pos 10000000000)) none (some (pos 3600)) ≡ ok funded
unfolding funded configure current records numbered replay_from initial accrue_event accrual
funded_lem = refl

launched : Store
launched = admitted_of (admit world funded 2000000 request)

launched_lem : admit world funded 2000000 request ≡ ok (launched, allowed (pos 1000000000))
unfolding launched funded configure current records numbered replay_from initial accrue_event
    accrual apply_record apply_all apply admit lookup insert decide accrued sessions estimate
    orphan_events total_held mark_orphan refusal conclude first_waiter waiting_state previous_of
    ◌+ℤ◌ ◌-ℤ◌ orphaned_bridge sorted
launched_lem = refl

admit-covered_example : (st : State) × (current launched ≡ ok st) × (pending st ≤ℤ st.balance)
admit-covered_example =
    admit-covered world funded launched 2000000 request (pos 1000000000) launched_lem

launched-Reach : Reach not_blank launched
launched-Reach =
    Reach.next
      (Reach.next Reach.start
        (Step.configures 1000 (some (pos 10000000000)) none (some (pos 3600)) funded_lem))
      (Step.admits world 2000000 request (allowed (pos 1000000000)) launched_lem)

Reach-books_example :
    (st : State) × (numbered 0 launched.ledger ≡ true)
    × (replay_from initial launched.ledger ≡ ok st)
    × (st.spent ≡ sum_by cost_of st.sessions)
    × (st.balance +ℤ st.spent ≡ credited launched.ledger)
Reach-books_example = Reach-books not_blank launched launched-Reach

settled : Store
settled =
    store_of
      (settle launched 3000000 "i1" (some (pos 5)) "completed" none [] "native-reported" none)

settled_lem :
    settle launched 3000000 "i1" (some (pos 5)) "completed" none [] "native-reported" none
    ≡ ok settled
unfolding settled launched funded configure current records numbered replay_from initial
    accrue_event accrual apply_record apply_all apply admit lookup insert decide accrued sessions
    estimate orphan_events total_held mark_orphan refusal conclude first_waiter waiting_state
    previous_of ◌+ℤ◌ ◌-ℤ◌ orphaned_bridge sorted settle
settled_lem = refl

-- A cooldown is written after the settlement.
cooled : Store
cooled = store_of (cooldown settled 3500000 "opus" 60)

cooled_lem : cooldown settled 3500000 "opus" 60 ≡ ok cooled
unfolding cooled settled launched funded configure current records numbered replay_from initial
    accrue_event accrual apply_record apply_all apply admit lookup insert decide accrued sessions
    estimate orphan_events total_held mark_orphan refusal conclude first_waiter waiting_state
    previous_of ◌+ℤ◌ ◌-ℤ◌ orphaned_bridge sorted settle cooldown
cooled_lem = refl

cooled-Reach : Reach not_blank cooled
cooled-Reach =
    Reach.next
      (Reach.next launched-Reach (
        Step.settles 3000000 "i1" (some (pos 5)) "completed" none [] "native-reported" none
          settled_lem))
      (Step.cools 3500000 "opus" 60 cooled_lem)

settle-settle_example :
    settle cooled 4000000 "i1" (some (pos 6)) "completed" none [] "native-reported" none
    ≡ err conflicting_receipt
unfolding cooled settled launched funded configure current records numbered replay_from initial
    accrue_event accrual apply_record apply_all apply admit lookup insert decide accrued sessions
    estimate orphan_events total_held mark_orphan refusal conclude first_waiter waiting_state
    previous_of ◌+ℤ◌ ◌-ℤ◌ orphaned_bridge sorted settle cooldown append
settle-settle_example =
    settle-settle not_blank launched settled 3000000 "i1" (pos 5) "completed" none []
      "native-reported" none launched-Reach settled_lem cooled cooling cooled-Reach refl refl refl
      4000000 (pos 6) "completed" none [] "native-reported" none refl
  where
    cooling : List Record
    cooling =
        record {
          seq = 4;
          timestamp = 3500000;
          events = Event.accrue (pos 0) 3500000 ∷ Event.cooldown "opus" 3500060 ∷ [];
        }
        ∷ []

abbrev granted : State
granted = record {
  balance = pos 5;
  rate = 0;
  spent = pos 0;
  watermark = 0;
  sessions = [];
  waiting = [];
  cooldowns = [];
  seq = 1;
}

abbrev grant_line : Record
grant_line = record { seq = 1; timestamp = 0; events = Event.grant (pos 5) ∷ [] }

grant_line_lem : replay_from initial (grant_line ∷ []) ≡ ok granted
unfolding replay_from initial apply_record apply_all apply ◌+ℤ◌
grant_line_lem = refl

replay-conserves_example : granted.balance +ℤ granted.spent ≡ credited (grant_line ∷ [])
replay-conserves_example = replay-conserves (grant_line ∷ []) granted grant_line_lem

estimate-covers_example :
    let (costs, amount) = estimate granted "opus" none true in
    (length costs ≡ 0 → dollar ≤ℤ amount) × (3 * length costs ≤ 4 * covers amount costs)
estimate-covers_example = estimate-covers granted "opus" none true
