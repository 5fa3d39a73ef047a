-- ===== src/Review/Verdicts.antt =====
-- What a clean head means beside the blocking test of the same board.
use tau_ceti_worker.Review.Board.{
  is_empty, is_adverse, ledger_blocking, ledger_clean_head, allowed_states,
}
use tau_ceti_worker.Prelude.{
  sym, subst, eq_iff, values, arith, ap, ◌⊎◌, ◌==◌, not, Bool-cases, ◌≡◌, contains, any, all, Bool,
  String, List, refl, true, false, [], ◌∷◌, inl, inr, string_eq,
}
use tau_ceti_worker.Review.State.{Board}

abbrev pub AllEqual : String → List String → Type 0
AllEqual w [] = Unit
AllEqual w (v ∷ vs) = (v ≡ w) × AllEqual w vs

abbrev unsettled : String → Bool
unsettled v = not (contains v ("green" ∷ "stale" ∷ []))

green_or_stale : (v : String) → unsettled v ≡ false → (v ≡ "green") ⊎ (v ≡ "stale")
green_or_stale v h = ground (arith, eq_iff v "green", eq_iff v "stale")

quiet : (v : String) → unsettled v ≡ false → is_adverse v ≡ false
quiet v h = elim (green_or_stale v h) [ inl e ↦ rw e refl | inr e ↦ rw e refl ]

none_adverse : (vs : List String) → any unsettled vs ≡ false → any is_adverse vs ≡ false
none_adverse [] h = refl
none_adverse (v ∷ vs) h = elim (Bool-cases (unsettled v)) [
  | inl open_still ↦ absurd (cc (rw open_still at h))
  | inr good ↦ rw (quiet v good) (none_adverse vs (rw good at h))
]

no_stale :
    (states : List String)
    → any is_adverse states ≡ false
    → contains "stale" (allowed_states states) ≡ false
unfolding allowed_states
no_stale states h = elim (Bool-cases (contains "blocking_block" states)) [
  | inl block ↦ rw (h, block) refl
  | inr free ↦ rw (h, free) refl
]

all_green :
    (allowed states : List String)
    → contains "stale" allowed ≡ false
    → any unsettled states ≡ false
    → all (λ v. contains v allowed) states ≡ true
    → AllEqual "green" states
all_green allowed [] h u a = tt
all_green allowed (v ∷ vs) h u a = elim (Bool-cases (unsettled v)) [
  | inl open_still ↦ absurd (cc (rw open_still at u))
  | inr good ↦ elim (Bool-cases (contains v allowed)) [
    | inl fits ↦ (
      elim (green_or_stale v good) [
        | inl e ↦ e
        | inr e ↦ absurd (cc (h, fits, ap (λ x. contains x allowed) e))
      ],
      all_green allowed vs h (rw good at u) (rw fits at a),
    )
    | inr out ↦ absurd (cc (rw out at a))
  ]
]

all_approved :
    (runs : List String)
    → all (λ v. not (v == "error")) runs ≡ true
    → any (λ v. not (contains v ("approve" ∷ "error" ∷ []))) runs ≡ false
    → AllEqual "approve" runs
all_approved [] a u = tt
all_approved (v ∷ vs) a u = (
  ground (arith, eq_iff v "approve", eq_iff v "error"),
  all_approved vs (ground arith) (ground arith),
)

is_empty-eq_nil {ℓ} : {A : Type ℓ} (xs : List A) → is_empty xs ≡ true → xs ≡ []
is_empty-eq_nil [] h = refl
is_empty-eq_nil (x ∷ xs) h = absurd (cc)

-- What a clean head that does not block passed on a board with rubric states, and without.
with_states :
    (m : Board) (head : String)
    → (head == "") ≡ false
    → ledger_clean_head m ≡ head
    → ledger_blocking m head ≡ false
    → is_empty m.states ≡ false
    → (all (λ v. contains v (allowed_states (values m.states))) (values m.states) ≡ true)
      × (any unsettled (values m.states) ≡ false)
unfolding ledger_clean_head ledger_blocking
with_states m head named clean free h = ground (arith, eq_iff head "", eq_iff m.head_sha head)

without_states :
    (m : Board) (head : String)
    → (head == "") ≡ false
    → ledger_clean_head m ≡ head
    → ledger_blocking m head ≡ false
    → is_empty m.states ≡ true
    → (all (λ v. not (v == "error")) m.runs ≡ true)
      × (any (λ v. not (contains v ("approve" ∷ "error" ∷ []))) m.runs ≡ false)
unfolding ledger_clean_head ledger_blocking
without_states m head named clean free h = ground (arith, eq_iff head "", eq_iff m.head_sha head)

-- A head that the board counts as clean and that does not block has only approvals: every rubric
-- state is "green", and on a board without rubric states every run is an "approve".
pub clean-not_blocking :
    (m : Board) (head : String)
    → (head == "") ≡ false
    → ledger_clean_head m ≡ head
    → ledger_blocking m head ≡ false
    → AllEqual "green" (values m.states) × (m.states ≡ [] → AllEqual "approve" m.runs)
clean-not_blocking m head named clean free = elim (Bool-cases (is_empty m.states)) [
  | inl bare ↦
      let none_yet = is_empty-eq_nil m.states bare in
      let (a, u) = without_states m head named clean free bare in
      (subst (λ x. AllEqual "green" (values x)) (sym none_yet) tt, λ _. all_approved m.runs a u)
  | inr full ↦
      let (a, u) = with_states m head named clean free full in
      (
        all_green (allowed_states (values m.states)) (values m.states)
            (no_stale (values m.states) (none_adverse (values m.states) u)) u a,
        λ e. absurd (cc (full, ap (λ x. is_empty x) e)),
      )
]
