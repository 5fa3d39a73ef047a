-- ===== src/Budget/Evidence.antt =====
-- tauceti_worker/budget.py: `settle_receipt`, the booking of what a provider reports.
-- A receipt is given decoded: an empty value of any type is an empty map, `malformed` is what is not
-- a map of texts to finite decimals, and a finish time is a time. Amounts are in one spelling.
use tau_ceti_worker.Prelude.{
  ◌&&◌, ◌||◌, ℕ, ltb, lookup, String, string_eq, Bool, true, false, Option, none, some, [], ◌∷◌,
  Dict, if◌then◌else◌, ◌==◌,
}
use tau_ceti_worker.Prelude.Int.{ℤ, pos, ◌+ℤ◌, ◌-ℤ◌, ltb_ℤ}
use tau_ceti_worker.Budget.State.{
  LowerBound, Result, ok, err, Session, Event, State, Store, Status, invalid_bound, invalid_totals,
  negative_totals,
}
use tau_ceti_worker.Budget.Ledger.{or_else, append, accrue_event}
use tau_ceti_worker.Budget.Estimate.{cost_of, max_ℤ, estimate}
use tau_ceti_worker.Budget.Settlement.{same_amount}
use tau_ceti_worker.Budget.Cumulative.{sum, differences, none_negative}

-- A map of providers to amounts, as a receipt may give it.
pub data Totals : Type 0 where
  absent null malformed : Totals
  amounts : Dict String ℤ → Totals

pub record Receipt : Type 0 where
  pub id : String
  pub outcome : String
  pub totals : Totals
  pub provisional : Bool
  pub lower_bound_totals : Totals
  pub finished : Option ℕ

-- What tauceti_worker/usage_supervisor.py and usage_accounting.py say of an invocation: its native
-- process is alive with no proof of an external exit, its journal holds messages.
pub record Supervision : Type 0 where
  pub runs : Session → Bool
  pub has_messages : Session → Bool
  pub mentions_running : String → Bool  -- `"process has not exited" in outcome`

abbrev pub is_absent : Totals → Bool
is_absent Totals.absent = true
is_absent _ = false

abbrev pub any_negative : Dict String ℤ → Bool
any_negative [] = false
any_negative ((k, v) ∷ d) = ltb_ℤ v (pos 0) || any_negative d

abbrev pub all_zero : Dict String ℤ → Bool
all_zero [] = true
all_zero ((k, v) ∷ d) = same_amount v (pos 0) && all_zero d

unfoldable pub lower_of : Bool → Receipt → Totals
lower_of provisional r = elim r.lower_bound_totals [
  | absent ↦ if provisional then r.totals else Totals.null
  | null ↦ Totals.null
  | malformed ↦ Totals.malformed
  | amounts d ↦ Totals.amounts d
]

unfoldable pub check_lower : Totals → Result (Dict String ℤ)
check_lower Totals.malformed = err invalid_bound
check_lower (Totals.amounts d) = if any_negative d then err invalid_bound else ok d
check_lower _ = ok []

-- `none` is no total: the receipt is lower-bound evidence at most.
unfoldable pub check_totals : Bool → Totals → Result (Option (Dict String ℤ))
check_totals true t = ok none
check_totals false Totals.malformed = err invalid_totals
check_totals false (Totals.amounts []) = err invalid_totals
check_totals false (Totals.amounts (a ∷ d)) =
    if any_negative (a ∷ d) then err negative_totals else ok (some (a ∷ d))
check_totals false _ = ok none

abbrev pub total_map : Option (Dict String ℤ) → Dict String ℤ
total_map none = []
total_map (some d) = d

abbrev pub has_totals : Option (Dict String ℤ) → Bool
has_totals none = false
has_totals (some d) = true

abbrev pub invalid_time : Session → ℕ → Option ℕ → Bool
invalid_time x now none = false
invalid_time x now (some t) = ltb t x.started || ltb now t

abbrev includes : Dict String ℤ → Dict String ℤ → Bool
includes [] e = true
includes ((k, v) ∷ d) e =
    elim (lookup k e) [ none ↦ false | some w ↦ same_amount v w ] && includes d e

abbrev pub same_totals : Dict String ℤ → Dict String ℤ → Bool
same_totals d e = includes d e && includes e d

-- The sum of what the amounts add to the baseline, if none of them lies below it.
unfoldable pub added : Dict String ℤ → Dict String ℤ → Option ℤ
added baseline totals =
    let ds = differences baseline totals in if none_negative ds then some (sum ds) else none

-- A lower bound is reserved with a whole further estimate, and no cost is booked.
abbrev tail_of : State → Session → ℤ → ℤ
tail_of st x known =
    if is_prefix x.cost_provenance then or_else x.usage_tail estimated else estimated
  where
    is_prefix : Option String → Bool
    is_prefix none = false
    is_prefix (some p) = p == "token-priced-prefix"

    estimated : ℤ
    estimated = max_ℤ (max_ℤ x.estimate (estimate st x.model (some x.phase) false).1) known

abbrev has_status : Bool → Status → Bool
has_status true Status.provisional = true
has_status false Status.unresolved = true
has_status _ _ = false

unfoldable pub bounded : State → Receipt → Session → Dict String ℤ → ℤ → LowerBound
unfolding estimate max_ℤ
bounded st r x lower known = record {
  reserve =
      max_ℤ (or_else x.reserve (pos 0)) (max_ℤ (pos 0) (known -ℤ cost_of x) +ℤ tail_of st x known);
  cost = known;
  totals = lower;
  usage_checkpoint = none;
  usage_tail = none;
}

-- The session says as much already.
unfoldable pub is_known : Session → Bool → LowerBound → Bool
is_known x provisional b =
    has_status provisional x.status
    && same_totals x.lower_bound_totals b.totals
    && same_amount (or_else x.reserve (pos 0)) b.reserve

unfoldable pub bound_receipt :
    Store → State → ℕ → Receipt → Session → Bool → Dict String ℤ → ℤ → Result Store
unfolding append bounded is_known
bound_receipt s st now r x provisional lower known =
    let bound = bounded st r x lower known in
    if is_known x provisional bound
    then ok s
    else ok (
        append s st now (
          accrue_event st now
          ∷ Event.unresolve r.id r.outcome provisional r.finished (some bound)
          ∷ []))
