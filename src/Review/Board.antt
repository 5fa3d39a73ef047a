-- ===== src/Review/Board.antt =====
-- tauceti_worker/review_state.py: the predicates over the scoreboard.
use tau_ceti_worker.Prelude.{
  ℕ, ◌-◌, String, Bool, true, false, not, ◌&&◌, none, some, List, [], ◌∷◌, ◌++◌, values, any, all,
  contains, string_eq, ◌==◌, if◌then◌else◌,
}
use tau_ceti_worker.Review.State.{Board}

abbrev pub is_adverse : String → Bool
is_adverse v = contains v ("blocking_request" ∷ "blocking_block" ∷ [])

abbrev pub completed : List String
completed = "green" ∷ "blocking_request" ∷ "blocking_block" ∷ []

-- The states that a clean head may show.
unfoldable pub allowed_states : List String → List String
allowed_states states =
    completed
    ++ ((if any is_adverse states then "stale" ∷ [] else [])
        ++ (if contains "blocking_block" states then "absent" ∷ [] else []))

abbrev pub is_empty {ℓ} : {A : Type ℓ} → List A → Bool
is_empty [] = true
is_empty (x ∷ xs) = false

-- `ledger_clean_head`, on the board that `gh_meta` returned.
unfoldable pub ledger_clean_head : Board → String
unfolding allowed_states
ledger_clean_head m =
    if m.mode == "init"
    then ""
    else if not (is_empty m.states)
    then if all (λ v. contains v (allowed_states (values m.states))) (values m.states)
      then m.head_sha
      else ""
    else if not (is_empty m.runs) && all (λ v. not (v == "error")) m.runs
    then m.head_sha
    else ""

-- `ledger_blocking`, on the board that `gh_meta` returned.
unfoldable pub ledger_blocking : Board → String → Bool
ledger_blocking m head =
    if not (m.head_sha == head)
    then false
    else if not (is_empty m.states)
    then any (λ v. not (contains v ("green" ∷ "stale" ∷ []))) (values m.states)
    else any (λ v. not (contains v ("approve" ∷ "error" ∷ []))) m.runs

-- `review_rounds`, over the base that the counters hold.
unfoldable pub review_rounds : Board → ℕ → ℕ
review_rounds m base = elim m.full_rounds [
  | some total ↦ total - base
  | none ↦ elim m.round [ some total ↦ total - base | none ↦ 0 - base ]
]
