-- ===== src/Budget/Telescope.antt =====
-- tauceti_worker/budget.py, `settle_receipt`: corrections keep the cumulative totals of a provider.
use tau_ceti_worker.Budget.Booking.{native_events, correct_native}
use tau_ceti_worker.Budget.Cumulative.{spread, share_of, successors, later_of, after, is_estimate}
use tau_ceti_worker.Budget.Corrected.{successors-eq_ok}
use tau_ceti_worker.Budget.Estimate.{is_settled, cost_of}
use tau_ceti_worker.Budget.Evidence.{Receipt}
use tau_ceti_worker.Budget.State.{Event, Session, Result-cases, ok, ok-injective}
use tau_ceti_worker.Prelude.{
  any, String, Bool, true, false, not, Option, List, [], ◌∷◌, Dict, string_eq, ◌≡◌, inl, inr, sym,
  ap, ◌∙◌, if◌then◌else◌,
}
use tau_ceti_worker.Prelude.Int.{ℤ, pos, ◌+ℤ◌, ◌-ℤ◌, int_laws, zero_add}

-- What corrections set, and what they give back to the balance.
unfoldable pub costs : List Event → ℤ
costs [] = pos 0
costs (Event.correction id delta cost a ∷ es) = cost +ℤ costs es
costs (_ ∷ es) = costs es

unfoldable pub deltas : List Event → ℤ
deltas [] = pos 0
deltas (Event.correction id delta cost a ∷ es) = delta +ℤ deltas es
deltas (_ ∷ es) = deltas es

add_zero : (a : ℤ) → a +ℤ pos 0 ≡ a
add_zero a = omega int_laws

last_takes : (native cursor : ℤ) → cursor +ℤ (native -ℤ cursor) ≡ native
last_takes native cursor = omega int_laws

alone : (native cursor : ℤ) → native -ℤ cursor +ℤ pos 0 ≡ native -ℤ cursor
alone native cursor = omega int_laws

telescoped : (native cursor value : ℤ) → value +ℤ (native -ℤ (cursor +ℤ value)) ≡ native -ℤ cursor
telescoped native cursor value = omega int_laws

-- However a native total is divided among one or more earlier estimates, from where an earlier
-- total stands: their costs then add up to the native total less that one, to the last nano-dollar,
-- and the baseline is then the native total.
pub costs-spread :
    (provider : String) (native exact weight : ℤ) (p : Session) (ps : List Session) (cursor : ℤ)
    → (costs (spread provider native exact weight cursor (p ∷ ps)).1 ≡ native -ℤ cursor)
      × ((spread provider native exact weight cursor (p ∷ ps)).0 ≡ native)
unfolding costs spread
costs-spread provider native exact weight p [] cursor =
    (alone native cursor, last_takes native cursor)
costs-spread provider native exact weight p (q ∷ ps) cursor =
    let value = share_of native exact weight p in
    let (sum, end) = costs-spread provider native exact weight q ps (cursor +ℤ value) in
    (ap (λ c. value +ℤ c) sum ∙ telescoped native cursor value, end)

abbrev has_native : List Session → Bool
has_native ps = any (λ p. not (is_estimate p.cost_provenance)) ps

deltas-successors :
    (totals : Dict String ℤ) (delta : ℤ) (ps : List Session) (later : List Event)
    → successors totals delta ps ≡ ok later
    → deltas later ≡ (if has_native ps then delta else pos 0)
unfolding successors deltas is_estimate
deltas-successors totals delta [] later h = ap (λ es. deltas es) (sym (ok-injective [] later h))
deltas-successors totals delta (p ∷ ps) later h =
    elim (successors-eq_ok totals delta p ps later h) [
      | inl (estimated, rest, e, line) ↦
          ap (λ es. deltas es) (sym line)
          ∙ zero_add (deltas rest)
          ∙ deltas-successors totals delta ps rest e
          ∙ rw estimated
      | inr (exact, line) ↦ ap (λ es. deltas es) (sym line) ∙ add_zero delta ∙ rw exact
    ]

paid_back :
    (b : Bool) (previous cost : ℤ)
    → previous -ℤ cost +ℤ (if b then cost -ℤ previous else pos 0)
      ≡ (if b then pos 0 else previous -ℤ cost)
paid_back true previous cost = omega int_laws
paid_back false previous cost = add_zero (previous -ℤ cost)

-- What an accepted receipt that replaces a settled estimate gives back to the balance, over its own
-- session and those after it: nothing where a settled session with a native total of its providers
-- follows, since that one takes up the difference; otherwise the estimate less the cost.
pub deltas-native_events :
    (r : Receipt) (remark : Option String) (x : Session) (ordered : List Session)
    (totals : Dict String ℤ) (cost : ℤ) (events : List Event)
    → is_settled x.status ≡ true
    → native_events r remark x ordered totals cost ≡ ok events
    → deltas events
      ≡ (if has_native (later_of totals (after r.id ordered)) then pos 0 else cost_of x -ℤ cost)
unfolding native_events correct_native deltas
deltas-native_events r remark x ordered totals cost events over h =
    elim (Result-cases (successors totals delta later)) [
      | inl (rest, e) ↦
          ap (λ es. deltas es) (sym (ok-injective _ events (rw (over, e) at h)))
          ∙ ap (λ d. cost_of x -ℤ cost +ℤ d) (deltas-successors totals delta later rest e)
          ∙ paid_back (has_native later) (cost_of x) cost
      | inr (why, e) ↦ absurd (cc (rw (over, e) at h))
    ]
  where
    delta : ℤ
    delta = cost -ℤ cost_of x

    later : List Session
    later = later_of totals (after r.id ordered)
