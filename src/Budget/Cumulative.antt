-- ===== src/Budget/Cumulative.antt =====
-- tauceti_worker/budget.py: the part of `settle_receipt` that charges a cumulative total. A provider
-- reports what a conversation has cost since its start, so a receipt is charged what it adds to the
-- sessions before it.
-- A quotient of amounts is rounded down to a nano-dollar.
use tau_ceti_worker.Prelude.{
  ◌*◌, ◌/◌, ◌&&◌, ◌||◌, not, any, all, filter, values, insert, keys, lookup, String, string_eq,
  Bool, true, false, Option, none, some, List, [], ◌∷◌, ◌++◌, Dict, map, if◌then◌else◌, ◌==◌,
}
use tau_ceti_worker.Prelude.Int.{ℤ, pos, pos_part, ◌+ℤ◌, ◌-ℤ◌, ltb_ℤ}
use tau_ceti_worker.Budget.State.{
  Result, ok, err, ◌>>=◌, Session, Event, State, mixed_baselines, late_conflict,
}
use tau_ceti_worker.Budget.Ledger.{or_else}
use tau_ceti_worker.Budget.Estimate.{cost_of, is_settled, max_ℤ, maximum}
use tau_ceti_worker.Budget.Settlement.{no_amendment, same_amount}

-- `k in d` and `set(d) == set(e)`
abbrev pub contains : String → List String → Bool
contains k ks = any (λ j. j == k) ks

abbrev pub shares : List String → List String → Bool
shares ks js = any (λ k. contains k js) ks

abbrev pub same_keys : List String → List String → Bool
same_keys ks js = all (λ k. contains k js) ks && all (λ j. contains j ks) js

-- `p.get("cost_provenance") in ESTIMATE_PROVENANCES`
unfoldable pub is_estimate : Option String → Bool
is_estimate none = false
is_estimate (some p) =
    p == "token-priced" || p == "historical-estimate" || p == "prelaunch-estimate"

abbrev pub resumes_any : List String → Option String → Bool
resumes_any providers none = false
resumes_any providers (some p) = contains p providers

-- The sessions that a total counts in, in ledger order, and the session itself.
unfoldable pub related : State → List String → String → List Session
related st providers include =
    filter
      (λ x. x.id == include || shares (keys x.totals) providers || resumes_any providers x.resume)
      (values st.sessions)

-- `ordered[:position]` and `ordered[position + 1:]`
unfoldable pub earlier : String → List Session → List Session
earlier id [] = []
earlier id (x ∷ xs) = let rest = earlier id xs in if x.id == id then [] else x ∷ rest

unfoldable pub after : String → List Session → List Session
after id [] = []
after id (x ∷ xs) = let rest = after id xs in if x.id == id then xs else rest

abbrev pub amount_in : String → Dict String ℤ → ℤ
amount_in k d = or_else (lookup k d) (pos 0)

unfoldable pub raise_baseline : Dict String ℤ → Dict String ℤ → Dict String ℤ
raise_baseline baseline [] = baseline
raise_baseline baseline ((k, v) ∷ totals) =
    raise_baseline (insert k (max_ℤ (amount_in k baseline) v) baseline) totals

-- The highest total of each provider before the session.
unfoldable pub baseline_of : Dict String ℤ → List Session → Dict String ℤ
unfolding raise_baseline
baseline_of baseline [] = baseline
baseline_of baseline (x ∷ xs) = baseline_of (raise_baseline baseline x.totals) xs

-- `max(amounts, default=0)`
abbrev pub highest : List ℤ → ℤ
highest [] = pos 0
highest (a ∷ rest) = maximum a rest

abbrev pub sum : List ℤ → ℤ
sum [] = pos 0
sum (a ∷ rest) = a +ℤ sum rest

-- What a share of `weight` is of the amount that the estimates may keep; none of them is negative.
abbrev pub share : ℤ → ℤ → ℤ → ℤ
share amount cost weight = pos (pos_part amount * pos_part cost / pos_part weight)

abbrev pub share_of : ℤ → ℤ → ℤ → Session → ℤ
share_of native exact weight p =
    if same_amount weight (pos 0) then pos 0 else share (native -ℤ exact) (cost_of p) weight

abbrev pub constrained : String → Session → ℤ → ℤ → Event
constrained provider p value cursor =
    Event.correction p.id (cost_of p -ℤ value) value (record no_amendment {
      cost_provenance = p.cost_provenance;
      totals = some ((provider, cursor) ∷ []);
    })

-- The estimates share what the receipt leaves them, in proportion; the last takes the rest.
unfoldable pub spread : String → ℤ → ℤ → ℤ → ℤ → List Session → ℤ × List Event
spread provider native exact weight cursor [] = (cursor, [])
spread provider native exact weight cursor (p ∷ []) =
    let value = native -ℤ cursor in
    let cursor' = cursor +ℤ value in (cursor', constrained provider p value cursor' ∷ [])
spread provider native exact weight cursor (p ∷ q ∷ ps) =
    let value = share_of native exact weight p in
    let rest = spread provider native exact weight (cursor +ℤ value) (q ∷ ps) in
    (rest.0, constrained provider p value (cursor +ℤ value) ∷ rest.1)

unfoldable pub priors_of : String → List Session → List Session
priors_of provider ps = filter (λ p. contains provider (keys p.totals)) ps

unfoldable pub exact_of : String → List Session → ℤ
exact_of provider ps =
    highest (
      map (λ p. amount_in provider p.totals) (filter (λ p. not (is_estimate p.cost_provenance)) ps))

unfoldable pub estimates_of : String → ℤ → List Session → List Session
unfolding is_estimate
estimates_of provider exact ps =
    filter (λ p. is_estimate p.cost_provenance && ltb_ℤ exact (amount_in provider p.totals)) ps

abbrev no_sessions : List Session → Bool
no_sessions [] = true
no_sessions (x ∷ xs) = false

-- An estimate of other providers too cannot be lowered for this one alone.
abbrev pub cannot_clamp : String → ℤ → ℤ → List Session → Bool
cannot_clamp provider native exact estimates =
    ltb_ℤ native exact
    || no_sessions estimates
    || any (λ p. not (same_keys (keys p.totals) (provider ∷ []))) estimates

abbrev pub exact_for : String → List Session → ℤ
exact_for provider before_it = exact_of provider (priors_of provider before_it)

abbrev pub estimates_for : String → List Session → List Session
estimates_for provider before_it =
    estimates_of provider (exact_for provider before_it) (priors_of provider before_it)

-- An earlier estimate above a native total is lowered to it; `none` where it cannot be.
unfoldable pub clamp : String → ℤ → List Session → Option (ℤ × List Event)
unfolding spread priors_of exact_of estimates_of
clamp provider native before_it =
    let exact = exact_for provider before_it in
    let estimates = estimates_for provider before_it in
    if cannot_clamp provider native exact estimates
    then none
    else some (spread provider native exact (sum (map cost_of estimates)) exact estimates)

-- The loop over the totals: the baseline as it leaves it, and the corrections.
unfoldable pub clamps : List Session → Dict String ℤ → Dict String ℤ → Dict String ℤ × List Event
unfolding clamp
clamps before_it baseline [] = (baseline, [])
clamps before_it baseline ((provider, native) ∷ totals) =
    elim (ltb_ℤ native (amount_in provider baseline)) [
      | false ↦ clamps before_it baseline totals
      | true ↦ elim (clamp provider native before_it) [
        | none ↦ (baseline, [])
        | some (cursor, events) ↦
            let rest = clamps before_it (insert provider cursor baseline) totals in
            (rest.0, events ++ rest.1)
      ]
    ]

unfoldable pub differences : Dict String ℤ → Dict String ℤ → List ℤ
differences baseline [] = []
differences baseline ((k, v) ∷ totals) = (v -ℤ amount_in k baseline) ∷ differences baseline totals

abbrev pub none_negative : List ℤ → Bool
none_negative ds = all (λ d. not (ltb_ℤ d (pos 0))) ds

abbrev pub rebased : ℤ → Dict String ℤ → Dict String ℤ
rebased delta [] = []
rebased delta ((k, v) ∷ totals) = (k, v +ℤ delta) ∷ rebased delta totals

unfoldable pub later_of : Dict String ℤ → List Session → List Session
later_of totals ps = filter (λ p. is_settled p.status && shares (keys p.totals) (keys totals)) ps

abbrev pub rebase : ℤ → Session → Event
rebase delta p =
    Event.correction p.id (pos 0) (cost_of p)
      (record no_amendment { totals = some (rebased delta p.totals) })

-- A late receipt moves the totals of the estimates after it, up to the next native total.
unfoldable pub successors : Dict String ℤ → ℤ → List Session → Result (List Event)
unfolding is_estimate
successors totals delta [] = ok []
successors totals delta (p ∷ ps) =
    let rest = successors totals delta ps in
    if not (same_keys (keys totals) (keys p.totals))
    then err mixed_baselines
    else if is_estimate p.cost_provenance
    then (rest >>= λ events. ok (rebase delta p ∷ events))
    else if ltb_ℤ (cost_of p -ℤ delta) (pos 0)
    then err late_conflict
    else ok (Event.correction p.id delta (cost_of p -ℤ delta) no_amendment ∷ [])
