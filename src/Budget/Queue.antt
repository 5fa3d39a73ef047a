-- ===== src/Budget/Queue.antt =====
-- tauceti_worker/budget.py: the waiting queue of waiting.json.
use tau_ceti_worker.Prelude.{
  ℕ, ◌+◌, ◌*◌, String, Bool, true, ◌&&◌, ◌||◌, Option, none, some, List, [], ◌∷◌, Dict, lookup,
  insert, values, nat_eq, string_eq, ltb, contains, ◌==◌, if◌then◌else◌,
}
use tau_ceti_worker.Prelude.Int.{ℤ}
use tau_ceti_worker.Budget.State.{second, Result, ok, ◌>>=◌, Waiter, State, Store}
use tau_ceti_worker.Budget.Ledger.{current, or_else}
use tau_ceti_worker.Budget.Estimate.{estimate}

abbrev pub waiting_for_funding : String
waiting_for_funding = "waiting for funding"

abbrev pub behind_another : String
behind_another = "waiting behind another worker"

-- A waiter that has not been seen for two minutes has given up.
abbrev pub patience : ℕ
patience = 120 * second

-- `now - seen < 120`, also where the clock went back.
unfoldable pub is_live : ℕ → Waiter → Bool
is_live now w = ltb now (w.seen + patience)

-- `waiting_state`: waiting.json, or the waiting events of the ledger.
unfoldable pub waiting_state : Store → State → Dict String Waiter
waiting_state s st = or_else s.queue st.waiting

unfoldable pub save_waiting : Store → Dict String Waiter → Store
save_waiting s queue = record s { queue = some queue }

-- The worker's own entry, forgotten once it has given up.
unfoldable pub previous_of : ℕ → Option Waiter → Option Waiter
unfolding is_live
previous_of now none = none
previous_of now (some w) = if is_live now w then some w else none

-- `(v["since"], v["ticket"])` in tuple order.
unfoldable pub before : Waiter → Waiter → Bool
before v w = ltb v.since w.since || (v.since == w.since && ltb v.ticket w.ticket)

-- `min`: the earliest, the first of equals.
unfoldable pub earliest : Option Waiter → List Waiter → Option Waiter
unfolding before
earliest best [] = best
earliest none (w ∷ ws) = earliest (some w) ws
earliest (some b) (w ∷ ws) = earliest (some (if before w b then w else b)) ws

unfoldable pub waits_for_funds : ℕ → String → Waiter → Bool
unfolding is_live
waits_for_funds now model w =
    is_live now w
    && contains w.reason (waiting_for_funding ∷ behind_another ∷ [])
    && w.model == model

unfoldable pub waiters : ℕ → String → List Waiter → List Waiter
unfolding waits_for_funds
waiters now model [] = []
waiters now model (w ∷ ws) =
    let rest = waiters now model ws in if waits_for_funds now model w then w ∷ rest else rest

-- Who has waited longest for funds for this model.
unfoldable pub first_waiter : ℕ → String → Dict String Waiter → Option Waiter
unfolding earliest waiters
first_waiter now model queue = earliest none (waiters now model (values queue))

-- A new entry keeps the place of the old one.
unfoldable pub waiting_entry : String → String → ℕ → ℕ → Option Waiter → String → ℤ → Waiter
waiting_entry worker model ticket now previous reason amount = record {
  worker = worker;
  model = model;
  ticket = elim previous [ none ↦ ticket | some w ↦ w.ticket ];
  since = elim previous [ none ↦ now | some w ↦ w.since ];
  seen = now;
  reason = reason;
  estimate = amount;
}

-- `refresh_waiter`
unfoldable pub refresh_waiter : Store → ℕ → String → Result Store
unfolding is_live waiting_state save_waiting
refresh_waiter s now worker = do
  st ← current s
  let queue = waiting_state s st
  ok (elim (lookup worker queue) [
    | none ↦ s
    | some w ↦
        if is_live now w then save_waiting s (insert worker (record w { seen = now }) queue) else s
  ])

-- `wait_for_admission`; `ticket` is the fresh uuid that a newcomer takes.
unfoldable pub wait_for_admission : Store → ℕ → ℕ → String → String → String → String → Result Store
unfolding previous_of waiting_state save_waiting waiting_entry
wait_for_admission s now ticket worker model phase reason = do
  st ← current s
  let queue = waiting_state s st
  let previous = previous_of now (lookup worker queue)
  let amount = (estimate st model (some phase) true).1
  ok (
      save_waiting s
        (insert worker (waiting_entry worker model ticket now previous reason amount) queue))
