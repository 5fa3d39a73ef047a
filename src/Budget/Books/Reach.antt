-- ===== src/Budget/Books/Reach.antt =====
-- The stores that the budget's operations reach from an empty directory, in any order, but for
-- `recover`, which is not modelled.
use tau_ceti_worker.Budget.Replay.Append.{Reads}
use tau_ceti_worker.Budget.Books.Conservation.{replay-conserves, credited}
use tau_ceti_worker.Budget.Admission.{admit, Answer, Request, World}
use tau_ceti_worker.Budget.Settlement.{repair, cooldown, reconcile, settle, configure}
use tau_ceti_worker.Budget.Books.Received.{IsObject, settle_receipt-Booked}
use tau_ceti_worker.Budget.Booking.{settle_receipt}
use tau_ceti_worker.Budget.Evidence.{Receipt, Supervision}
use tau_ceti_worker.Budget.Books.Recovering.{recover_usage-Booked}
use tau_ceti_worker.Budget.Recovery.{Journal, Recovered, recover_usage}
use tau_ceti_worker.Budget.Estimate.{cost_of}
use tau_ceti_worker.Budget.Books.Admissions.{
  repair-Booked, Booked-ledger, reconcile-Booked, admit-Booked,
}
use tau_ceti_worker.Budget.Books.Operations.{
  cooldown-Booked, written, settle-Booked, by_current, configure-Booked,
}
use tau_ceti_worker.Budget.Books.Events.{Booked}
use tau_ceti_worker.Budget.State.{◌>>=◌, ok, State, Store}
use tau_ceti_worker.Budget.Queue.{wait_for_admission, refresh_waiter}
use tau_ceti_worker.Budget.Ledger.{current, replay_from, numbered, initial}
use tau_ceti_worker.Prelude.{
  string_eq, lookup, List, arith, true, none, ◌≡◌, false, Option, ℕ, [], Bool, String, refl, sym,
  ap,
}
use tau_ceti_worker.Prelude.Int.{ℤ, ◌+ℤ◌}
use tau_ceti_worker.Prelude.Sums.{sum_by}

-- One operation, or a crash in the middle of an append. The world may differ at each step. The bulk
-- `recover` of budget_recovery.py, which appends corrections and settlements too, is no step.
pub data Step (blank : String → Bool) (s : Store) (s' : Store) : Type 0 where
  configures :
      (now : ℕ) (grant set_grant rate : Option ℤ)
      → configure s now grant set_grant rate ≡ ok s'
      → Step blank s s'
  admits :
      (w : World) (now : ℕ) (r : Request) (answer : Answer)
      → admit w s now r ≡ ok (s', answer)
      → Step blank s s'
  settles :
      (now : ℕ) (id : String) (cost : Option ℤ) (outcome : String) (remark : Option String)
      (totals : List (String × ℤ)) (provenance : String) (finished : Option ℕ)
      → settle s now id cost outcome remark totals provenance finished ≡ ok s'
      → Step blank s s'
  reconciles :
      (w : World) (now : ℕ) (id : String) (c : ℤ) (note : String)
      → reconcile blank w s now id c note ≡ ok s'
      → Step blank s s'
  receives :
      (v : Supervision) (now : ℕ) (r : Receipt) (remark : Option String)
      → IsObject r.totals
      → settle_receipt v s now r remark ≡ ok s'
      → Step blank s s'
  recovers :
      (j : Journal) (now : ℕ) (id : String) (remark : Option String)
      (allow_live_owner dry_run : Bool) (answer : Option Recovered)
      → recover_usage j s now id remark allow_live_owner dry_run ≡ ok (s', answer)
      → Step blank s s'
  cools :
      (now : ℕ) (model : String) (delay : ℕ) → cooldown s now model delay ≡ ok s' → Step blank s s'
  refreshes : (now : ℕ) (worker : String) → refresh_waiter s now worker ≡ ok s' → Step blank s s'
  waits :
      (now ticket : ℕ) (worker model phase reason : String)
      → wait_for_admission s now ticket worker model phase reason ≡ ok s'
      → Step blank s s'
  tears : s' ≡ record s { torn = true } → Step blank s s'
  repairs :
      (now : ℕ) (archive fresh note : String)
      → ((st : State) → Reads s st → lookup fresh st.sessions ≡ none)
      → repair blank s now archive fresh note ≡ ok s'
      → Step blank s s'

abbrev pub fresh_store : Store
fresh_store = record { ledger = []; torn = false; queue = none }

pub data Reach (blank : String → Bool) : Store → Type 0 where
  start : Reach blank fresh_store
  next : {s s' : Store} → Reach blank s → Step blank s s' → Reach blank s'

queue_only :
    (s s' : Store) (f : State → Store)
    → ((st : State) → (f st).ledger ≡ s.ledger)
    → (current s >>= λ st. ok (f st)) ≡ ok s'
    → Booked s
    → Booked s'
queue_only s s' f same h b =
    by_current s s' (λ st. ok (f st))
      (λ st reads booked done. written done (Booked-ledger (sym (same st)) (st, reads, booked))) h b

refresh_waiter-Booked :
    (s s' : Store) (now : ℕ) (worker : String)
    → refresh_waiter s now worker ≡ ok s'
    → Booked s
    → Booked s'
unfolding refresh_waiter
refresh_waiter-Booked s s' now worker h b = queue_only s s' _ (λ st. ground arith) h b

wait_for_admission-Booked :
    (s s' : Store) (now ticket : ℕ) (worker model phase reason : String)
    → wait_for_admission s now ticket worker model phase reason ≡ ok s'
    → Booked s
    → Booked s'
unfolding wait_for_admission
wait_for_admission-Booked s s' now ticket worker model phase reason h b =
    queue_only s s' _ (λ st. refl) h b

Step-Booked : (blank : String → Bool) (s s' : Store) → Step blank s s' → Booked s → Booked s'
Step-Booked blank s s' (configures now g t r h) b = configure-Booked s s' now g t r h b
Step-Booked blank s s' (admits w now r a h) b = admit-Booked w s s' now r a h b
Step-Booked blank s s' (settles now id c o m t p f h) b = settle-Booked s s' now id c o m t p f h b
Step-Booked blank s s' (reconciles w now id c m h) b = reconcile-Booked blank w s s' now id c m h b
Step-Booked blank s s' (receives v now r m o h) b = settle_receipt-Booked v s s' now r m o h b
Step-Booked blank s s' (recovers j now id m l d a h) b =
    recover_usage-Booked j s s' now id m l d a h b
Step-Booked blank s s' (cools now m d h) b = cooldown-Booked s s' now m d h b
Step-Booked blank s s' (refreshes now w h) b = refresh_waiter-Booked s s' now w h b
Step-Booked blank s s' (waits now t w m p r h) b = wait_for_admission-Booked s s' now t w m p r h b
Step-Booked blank s s' (tears h) b = Booked-ledger (sym (ap (λ x. x.ledger) h)) b
Step-Booked blank s s' (repairs now a f m u h) b = repair-Booked blank s s' now a f m u h b

pub Reach-Booked : (blank : String → Bool) (s : Store) → Reach blank s → Booked s
unfolding initial numbered replay_from sum_by
Reach-Booked blank s start = (initial, record { in_order = refl; replayed = refl }, refl)
Reach-Booked blank s (next r st) = Step-Booked blank _ s st (Reach-Booked blank _ r)

-- After any grants, admissions, settlements, reconciliations, provider receipts, recoveries of single
-- invocations, cooldowns, waits, crashes and repairs, in any order, the complete lines of the ledger
-- are numbered without a gap and replay to a state in which the spending is the sum of the session
-- costs, and balance and spending together are what the lines credited. The bulk `recover` of
-- budget_recovery.py is not among them.
pub Reach-books :
    (blank : String → Bool) (s : Store)
    → Reach blank s
    → (st : State) × (numbered 0 s.ledger ≡ true)
      × (replay_from initial s.ledger ≡ ok st)
      × (st.spent ≡ sum_by cost_of st.sessions)
      × (st.balance +ℤ st.spent ≡ credited s.ledger)
Reach-books blank s r =
    let (st, reads, booked) = Reach-Booked blank s r in
    (st, reads.in_order, reads.replayed, booked, replay-conserves s.ledger st reads.replayed)
