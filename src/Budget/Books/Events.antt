-- ===== src/Budget/Books/Events.antt =====
-- Events that keep the spending equal to the sum of the session costs.
use tau_ceti_worker.Prelude.{
  ℕ, ◌+◌, String, Bool, Option, none, some, List, [], ◌∷◌, lookup, insert, string_eq, ◌≡◌, refl, ap,
  sym, ◌∙◌, arith,
}
use tau_ceti_worker.Prelude.Int.{ℤ, pos, ◌+ℤ◌, ◌-ℤ◌, int_laws, parts_of_eq, +ℤ_right_cancel}
use tau_ceti_worker.Prelude.Sums.{sum_by, sum_by-insert_old, sum_by-insert_new}
use tau_ceti_worker.Budget.State.{ok, Session, LowerBound, Event, State, Store}
use tau_ceti_worker.Budget.Ledger.{
  update_session, apply, apply_all, amend, settle_session, unresolve_session, append,
}
use tau_ceti_worker.Budget.Estimate.{cost_of}
use tau_ceti_worker.Budget.Replay.Append.{Reads, Reads-append}

-- The spending is the sum of what the sessions cost.
abbrev pub IsBooked : State → Type 0
IsBooked st = st.spent ≡ sum_by cost_of st.sessions

-- What an event says agrees with the state that it is applied to.
abbrev pub Fits : State → Event → Type 0
Fits st (Event.correction id delta cost a) =
    (x : Session) × (lookup id st.sessions ≡ some x) × (delta ≡ cost_of x -ℤ cost)
Fits st (Event.settle id e) = (x : Session) × (lookup id st.sessions ≡ some x) × (cost_of x ≡ pos 0)
Fits st (Event.unresolve id o p f b) = (x : Session) × (lookup id st.sessions ≡ some x)
Fits st (Event.admit s) = (lookup s.id st.sessions ≡ none) × (s.cost ≡ none)
Fits st _ = Unit

abbrev pub FitsAll : ℕ → State → List Event → Type 0
FitsAll t st [] = Unit
FitsAll t st (e ∷ es) = Fits st e × ((st' : State) → apply t st e ≡ ok st' → FitsAll t st' es)

corrected :
    (total old new spent : ℤ)
    → spent ≡ total
    → (total' : ℤ) → total' +ℤ old ≡ total +ℤ new
    → spent -ℤ (old -ℤ new) ≡ total'
corrected total old new spent h total' e =
    omega (int_laws, parts_of_eq spent total h, parts_of_eq (total' +ℤ old) (total +ℤ new) e)

settled_up :
    (total old new spent : ℤ)
    → spent ≡ total
    → old ≡ pos 0
    → (total' : ℤ) → total' +ℤ old ≡ total +ℤ new
    → spent +ℤ new ≡ total'
settled_up total old new spent h z total' e = omega (
  int_laws,
  parts_of_eq spent total h,
  parts_of_eq old (pos 0) z,
  parts_of_eq (total' +ℤ old) (total +ℤ new) e,
)

pub unresolve_session-cost :
    (s : Session) (o : String) (p : Bool) (f : Option ℕ) (b : Option LowerBound)
    → cost_of (unresolve_session s o p f b) ≡ cost_of s
unfolding unresolve_session
unresolve_session-cost s o p f none = refl
unresolve_session-cost s o p f (some b) = refl

no_cost : (s : Session) → s.cost ≡ none → cost_of s ≡ pos 0
no_cost s h = ground arith

free_entry : (total cost : ℤ) → cost ≡ pos 0 → total +ℤ cost ≡ total
free_entry total cost h = omega (int_laws, parts_of_eq cost (pos 0) h)

-- A fitting event succeeds and keeps the books.
pub Fits-IsBooked :
    (t : ℕ) (st : State) (e : Event)
    → Fits st e
    → IsBooked st
    → (st' : State) × (apply t st e ≡ ok st') × IsBooked st'
unfolding apply update_session amend settle_session
Fits-IsBooked t st (Event.correction id delta cost a) (x, found, exact) booked = (
  record st {
    balance = st.balance +ℤ delta;
    spent = st.spent -ℤ delta;
    sessions = insert id (amend x cost a) st.sessions;
  },
  ground (arith),
  ap (λ d. st.spent -ℤ d) exact
      ∙ corrected _ (cost_of x) cost st.spent booked _
          (sum_by-insert_old cost_of id (amend x cost a) x st.sessions found),
)
Fits-IsBooked t st (Event.settle id e) (x, found, free) booked = (
  record st {
    balance = st.balance -ℤ e.cost;
    spent = st.spent +ℤ e.cost;
    sessions = insert id (settle_session t x e) st.sessions;
  },
  ground (arith),
  settled_up _ (cost_of x) e.cost st.spent booked free _
      (sum_by-insert_old cost_of id (settle_session t x e) x st.sessions found),
)
Fits-IsBooked t st (Event.unresolve id o p f b) (x, found) booked = (
  record st { sessions = insert id (unresolve_session x o p f b) st.sessions },
  ground (arith),
  booked
      ∙ sym (
          +ℤ_right_cancel _ _ (cost_of x) (
            sum_by-insert_old cost_of id (unresolve_session x o p f b) x st.sessions found
            ∙ ap (λ c. sum_by cost_of st.sessions +ℤ c) (unresolve_session-cost x o p f b))),
)
Fits-IsBooked t st (Event.admit s) (fresh, free) booked = (
  _,
  refl,
  booked
      ∙ sym (
          sum_by-insert_new cost_of s.id s st.sessions fresh
          ∙ free_entry (sum_by cost_of st.sessions) (cost_of s) (no_cost s free)),
)
Fits-IsBooked t st _ fits booked = (_, refl, booked)

pub FitsAll-IsBooked :
    (t : ℕ) (st : State) (es : List Event)
    → FitsAll t st es
    → IsBooked st
    → (st' : State) × (apply_all t st es ≡ ok st') × IsBooked st'
unfolding apply_all
FitsAll-IsBooked t st [] fits booked = (st, refl, booked)
FitsAll-IsBooked t st (e ∷ es) (fit, later) booked =
    let (mid, p, kept) = Fits-IsBooked t st e fit booked in
    let (st', run, end) = FitsAll-IsBooked t mid es (later mid p) kept in (st', rw p run, end)

-- The ledger of a store replays, and its books agree. A torn last line does not count.
abbrev pub Booked : Store → Type 0
Booked s = (st : State) × Reads s st × IsBooked st

pub append-Booked :
    (s : Store) (st : State) (now : ℕ) (es : List Event)
    → Reads s st
    → IsBooked st
    → FitsAll now (record st { seq = st.seq + 1 }) es
    → Booked (append s st now es)
append-Booked s st now es reads booked fits =
    let (st', run, kept) = FitsAll-IsBooked now (record st { seq = st.seq + 1 }) es fits booked in
    (st', Reads-append s st st' now es reads run, kept)
