-- ===== src/Budget/Recovery.antt =====
-- tauceti_worker/budget.py: `recover_usage`, which charges what a stopped invocation has saved.
-- The state is read twice under the lock; the calls are taken one after another, so the reads agree.
-- That a recovered checkpoint is written back to its journal is left out. Amounts are in one spelling.
use tau_ceti_worker.Prelude.{
  ◌&&◌, ◌||◌, ◌==◌, ℕ, not, lookup, String, string_eq, Bool, true, false, Option, none, some, List,
  [], ◌∷◌, ◌++◌, Dict, if◌then◌else◌,
}
use tau_ceti_worker.Prelude.Int.{ℤ, pos, ◌+ℤ◌, ◌-ℤ◌}
use tau_ceti_worker.Budget.State.{Result, ok, ◌>>=◌, given, Session, Event, State, Store, Status}
use tau_ceti_worker.Budget.Ledger.{or_else, current, append, accrue_event}
use tau_ceti_worker.Budget.Estimate.{cost_of, is_settled, max_ℤ, estimate}
use tau_ceti_worker.Budget.Settlement.{no_amendment, same_amount}
use tau_ceti_worker.Budget.Cumulative.{related, earlier, amount_in}
use tau_ceti_worker.Budget.Booking.{take_back}

-- What tauceti_worker/budget_usage.py finds saved of an invocation. A stamp names the checkpoint
-- and the cost charged for it.
pub record Saved : Type 0 where
  pub has_items : Bool
  pub cost : ℤ
  pub complete : Bool
  pub stamp : ℤ → String
  pub provider_session : Option String

-- The saved usage, and what is known of the processes.
pub record Journal : Type 0 where
  pub saved : String → Option Saved
  pub is_registered : Session → Bool
  pub invocation_alive : Session → Bool
  pub owner_alive : Option String → Bool

pub record Recovered : Type 0 where
  pub complete : Bool
  pub estimated : ℤ
  pub reserve : ℤ

unfoldable pub is_running : Journal → Bool → Session → Bool
is_running j allow_live_owner x =
    if j.is_registered x
    then j.invocation_alive x
    else not allow_live_owner && j.owner_alive x.owner

abbrev pub cost_found : Saved → Session → ℤ
cost_found saved x = max_ℤ saved.cost (or_else x.lower_bound_cost (pos 0))

abbrev is_stamped : Option String → String → Bool
is_stamped none stamp = false
is_stamped (some t) stamp = t == stamp

-- What stays reserved: as before for the same checkpoint; nothing where the journal is complete.
unfoldable pub usage_reserve : State → Saved → Session → ℤ
unfolding estimate
usage_reserve st saved x =
    let fresh : ℤ =
      if saved.complete
      then pos 0
      else max_ℤ (max_ℤ x.estimate (estimate st x.model (some x.phase) false).1)
          (cost_found saved x) in
    if is_stamped x.usage_checkpoint (saved.stamp (cost_found saved x))
    then or_else x.usage_tail fresh
    else fresh

abbrev first_given : Option String → Option String → Option String
first_given a b = elim (given a) [ none ↦ given b | some s ↦ some s ]

-- The highest total of the provider session before the invocation.
abbrev resumed_at : String → ℤ → List Session → ℤ
resumed_at provider base [] = base
resumed_at provider base (p ∷ ps) =
    resumed_at provider (max_ℤ base (amount_in provider p.totals)) ps

unfoldable pub estimated_totals : State → String → Saved → Session → Dict String ℤ
unfolding related earlier max_ℤ
estimated_totals st id saved x = elim (first_given x.resume saved.provider_session) [
  | none ↦ []
  | some primary ↦
      if primary == "unknown"
      then []
      else (
        primary,
        resumed_at primary (pos 0) (earlier id (related st (primary ∷ []) id))
            +ℤ cost_found saved x,
      )
        ∷ []
]

unfoldable pub complete_events : State → String → Saved → Session → Option String → List Event
unfolding estimated_totals
complete_events st id saved x remark =
    take_back id x
    ++ Event.settle id (record {
      cost = cost_found saved x;
      outcome = "recovered usage estimate";
      note = remark;
      totals = estimated_totals st id saved x;
      cost_provenance = "token-priced";
      finished = none;
      recovery_manifest = none;
      recovery_audit = none;
    })
      ∷ []

unfoldable pub prefix_charge : State → String → Saved → Session → List Event
unfolding usage_reserve
prefix_charge st id saved x =
    Event.correction id (cost_of x -ℤ cost_found saved x) (cost_found saved x)
      (record no_amendment { cost_provenance = some "token-priced-prefix" })
    ∷ Event.unresolve id "incomplete request; token-priced prefix charged" true none (
        some (record {
          reserve = usage_reserve st saved x;
          cost = or_else x.lower_bound_cost (pos 0);
          totals = x.lower_bound_totals;
          usage_checkpoint = some (saved.stamp (cost_found saved x));
          usage_tail = some (usage_reserve st saved x);
        }))
    ∷ []

abbrev reserved_at : Option ℤ → ℤ → Bool
reserved_at none a = false
reserved_at (some r) a = same_amount r a

abbrev is_provisional : Status → Bool
is_provisional Status.provisional = true
is_provisional _ = false

-- The prefix is charged already, with the same reserve.
unfoldable pub is_charged : State → Saved → Session → Bool
is_charged st saved x =
    same_amount (cost_of x) (cost_found saved x)
    && reserved_at x.reserve (usage_reserve st saved x)
    && is_provisional x.status

unfoldable pub recover_saved :
    Store → State → ℕ → String → Saved → Session → Option String → Bool → Store × Option Recovered
unfolding complete_events prefix_charge is_charged append
recover_saved s st now id saved x remark dry_run =
    let answer : Option Recovered = some (record {
      complete = saved.complete;
      estimated = cost_found saved x;
      reserve = usage_reserve st saved x;
    }) in
    if dry_run
    then (s, answer)
    else if saved.complete
    then (append s st now (accrue_event st now ∷ complete_events st id saved x remark), answer)
    else if is_charged st saved x
    then (s, answer)
    else (append s st now (accrue_event st now ∷ prefix_charge st id saved x), answer)

unfoldable pub recover_session :
    Journal
    → Store
    → State
    → ℕ
    → String
    → Option Session
    → Option String
    → Bool
    → Bool
    → Store × Option Recovered
unfolding recover_saved is_running
recover_session j s st now id none remark allow_live_owner dry_run = (s, none)
recover_session j s st now id (some x) remark allow_live_owner dry_run =
    if is_settled x.status || is_running j allow_live_owner x
    then (s, none)
    else elim (j.saved id) [
      | none ↦ (s, none)
      | some saved ↦
          if saved.has_items then recover_saved s st now id saved x remark dry_run else (s, none)
    ]

-- `recover_usage`
unfoldable pub recover_usage :
    Journal → Store → ℕ → String → Option String → Bool → Bool → Result (Store × Option Recovered)
unfolding recover_session
recover_usage j s now id remark allow_live_owner dry_run = do
  st ← current s
  ok (recover_session j s st now id (lookup id st.sessions) remark allow_live_owner dry_run)
