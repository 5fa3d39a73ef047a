-- ===== src/Budget/Estimate.antt =====
-- tauceti_worker/budget.py: `sessions` and `estimate`, the third quartile of recent session costs.
use tau_ceti_worker.Prelude.{
  ℕ, zero, suc, ◌+◌, ◌-◌, ◌*◌, ◌/◌, String, Bool, true, false, not, ◌&&◌, Option, none, some, List,
  [], ◌∷◌, length, take_last, filter, string_eq, values, map, ◌==◌, if◌then◌else◌,
}
use tau_ceti_worker.Prelude.Int.{ℤ, pos, ltb_ℤ}
use tau_ceti_worker.Budget.State.{dollar, Status, Session, State, given}
use tau_ceti_worker.Budget.Ledger.{or_else}

abbrev pub is_settled : Status → Bool
is_settled Status.settled = true
is_settled _ = false

abbrev pub is_active : Status → Bool
is_active Status.active = true
is_active _ = false

-- `money(s.get("cost", "0"))`
abbrev pub cost_of : Session → ℤ
cost_of s = or_else s.cost (pos 0)

-- The keyword filters of `sessions` that the accounting uses.
pub record Filters : Type 0 where
  pub model : Option String
  pub phase : Option String
  pub active : Bool
  pub settled : Bool
  pub positive : Bool
  pub limit : Option ℕ

abbrev pub every : Filters
every = record {
  model = none;
  phase = none;
  active = false;
  settled = false;
  positive = false;
  limit = none;
}

abbrev matches_text : Option String → String → Bool
matches_text none s = true
matches_text (some t) s = s == t

unfoldable pub selected : Filters → Session → Bool
selected f s =
    matches_text f.model s.model
    && matches_text f.phase s.phase
    && (if f.active then not (is_settled s.status) else true)
    && (if f.settled then is_settled s.status else true)
    && (if f.positive then ltb_ℤ (pos 0) (cost_of s) else true)

unfoldable pub sessions : Filters → State → List Session
unfolding selected
sessions f st =
    let rows = filter (selected f) (values st.sessions) in
    elim f.limit [ none ↦ rows | some n ↦ take_last n rows ]

-- `sorted`, on amounts.
unfoldable pub insert_sorted : ℤ → List ℤ → List ℤ
insert_sorted a [] = a ∷ []
insert_sorted a (b ∷ bs) =
    let rest = insert_sorted a bs in if ltb_ℤ b a then b ∷ rest else a ∷ b ∷ bs

unfoldable pub sorted : List ℤ → List ℤ
unfolding insert_sorted
sorted [] = []
sorted (a ∷ rest) = insert_sorted a (sorted rest)

abbrev pub get_or : List ℤ → ℕ → ℤ → ℤ
get_or [] i d = d
get_or (x ∷ xs) zero d = x
get_or (x ∷ xs) (suc i) d = get_or xs i d

-- `costs[math.ceil(len(costs) * 0.75) - 1]`
unfoldable pub quartile : List ℤ → ℤ
quartile costs = get_or costs ((3 * length costs + 3) / 4 - 1) (pos 0)

unfoldable pub max_ℤ : ℤ → ℤ → ℤ
max_ℤ a b = if ltb_ℤ a b then b else a

unfoldable pub maximum : ℤ → List ℤ → ℤ
unfolding max_ℤ
maximum a [] = a
maximum a (b ∷ bs) = maximum (max_ℤ a b) bs

abbrev non_empty : List ℤ → List ℤ → List ℤ
non_empty [] other = other
non_empty (a ∷ rest) other = a ∷ rest

-- `money(s["reserve"])` of the sessions whose reserve is positive.
unfoldable pub positive_reserves : List Session → List ℤ
positive_reserves [] = []
positive_reserves (s ∷ ss) =
    let rest = positive_reserves ss in
    let reserve = or_else s.reserve (pos 0) in
    if ltb_ℤ (pos 0) reserve then reserve ∷ rest else rest

-- The costs that the estimate rests on: of this model and phase, else of this model, else the
-- reserves of its unsettled sessions.
unfoldable pub evidence : State → String → Option String → Bool → List ℤ
unfolding sessions positive_reserves
evidence st model phase include_pending =
    let history = λ (p : Option String). map cost_of (
      sessions
        (record every {
          model = some model;
          phase = p;
          settled = true;
          positive = true;
          limit = some 20;
        })
        st) in
    let by_phase : List ℤ = elim (given phase) [ none ↦ [] | some p ↦ history (some p) ] in
    let costs = non_empty by_phase (history none) in
    let pending =
      if include_pending
      then positive_reserves (sessions (record every { model = some model; active = true }) st)
      else [] in
    sorted (take_last 20 (non_empty costs pending))

-- The third quartile of the costs; with no evidence a dollar, or the dearest recent session.
unfoldable pub price : List ℤ → List ℤ → ℤ
unfolding quartile maximum
price [] recent = maximum dollar recent
price (c ∷ cs) recent = quartile (c ∷ cs)

-- The costs, and the amount that an admission holds back.
unfoldable pub estimate : State → String → Option String → Bool → List ℤ × ℤ
unfolding evidence price
estimate st model phase include_pending =
    let costs = evidence st model phase include_pending in
    let recent = map cost_of (sessions (record every { settled = true; limit = some 20 }) st) in
    (costs, price costs recent)
