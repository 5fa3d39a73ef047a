-- ===== src/Budget/Quartile.antt =====
-- tauceti_worker/budget.py, `estimate`: what the third quartile of the costs guarantees.
use tau_ceti_worker.Budget.State.{dollar, State}
use tau_ceti_worker.Budget.Estimate.{
  price, maximum, max_ℤ, evidence, estimate, get_or, sorted, quartile, insert_sorted,
}
use tau_ceti_worker.Prelude.{
  sym, subst, Bool, Option, String, zero, ◌-◌, ◌/◌, ◌+◌, inr, ◌≤◌, inl, ◌*◌, if◌then◌else◌, arith,
  Bool-cases, ◌≡◌, ◌∷◌, ◌<◌, ℕ, length, List, refl, suc, [],
}
use tau_ceti_worker.Prelude.Int.{le_of_not_ltb_ℤ, ℤ, pos, ltb_ℤ, ◌≤ℤ◌}

-- How many of the costs an amount covers.
abbrev pub covers : ℤ → List ℤ → ℕ
covers a [] = 0
covers a (b ∷ bs) = let rest = covers a bs in if ltb_ℤ a b then rest else suc rest

abbrev AllAtLeast : ℤ → List ℤ → Type 0
AllAtLeast a [] = Unit
AllAtLeast a (b ∷ bs) = (a ≤ℤ b) × AllAtLeast a bs

abbrev IsSorted : List ℤ → Type 0
IsSorted [] = Unit
IsSorted (a ∷ rest) = AllAtLeast a rest × IsSorted rest

AllAtLeast-trans : (a b : ℤ) (xs : List ℤ) → a ≤ℤ b → AllAtLeast b xs → AllAtLeast a xs
AllAtLeast-trans a b [] h u = tt
AllAtLeast-trans a b (x ∷ xs) h u = (omega arith, AllAtLeast-trans a b xs h u.1)

AllAtLeast-insert_sorted :
    (a b : ℤ) (xs : List ℤ) → a ≤ℤ b → AllAtLeast a xs → AllAtLeast a (insert_sorted b xs)
unfolding insert_sorted
AllAtLeast-insert_sorted a b [] h u = (h, tt)
AllAtLeast-insert_sorted a b (x ∷ xs) h u = elim (Bool-cases (ltb_ℤ x b)) [
  | inl below ↦ rw below (u.0, AllAtLeast-insert_sorted a b xs h u.1)
  | inr above ↦ rw above (h, u)
]

insert_sorted-IsSorted : (a : ℤ) (xs : List ℤ) → IsSorted xs → IsSorted (insert_sorted a xs)
unfolding insert_sorted
insert_sorted-IsSorted a [] u = (tt, tt)
insert_sorted-IsSorted a (x ∷ xs) u = elim (Bool-cases (ltb_ℤ x a)) [
  | inl below ↦
      rw below (AllAtLeast-insert_sorted x a xs (ground arith) u.0, insert_sorted-IsSorted a xs u.1)
  | inr above ↦
      rw above
        ((le_of_not_ltb_ℤ x a above, AllAtLeast-trans a x xs (le_of_not_ltb_ℤ x a above) u.0), u)
]

sorted-IsSorted : (xs : List ℤ) → IsSorted (sorted xs)
unfolding sorted
sorted-IsSorted [] = tt
sorted-IsSorted (x ∷ xs) = insert_sorted-IsSorted x (sorted xs) (sorted-IsSorted xs)

covers-insert_sorted : (a b : ℤ) (xs : List ℤ) → covers a (insert_sorted b xs) ≡ covers a (b ∷ xs)
unfolding insert_sorted
covers-insert_sorted a b [] = refl
covers-insert_sorted a b (x ∷ xs) = ground (arith, covers-insert_sorted a b xs)

covers-sorted : (a : ℤ) (xs : List ℤ) → covers a (sorted xs) ≡ covers a xs
unfolding sorted
covers-sorted a [] = refl
covers-sorted a (x ∷ xs) = ground (arith, covers-insert_sorted a x (sorted xs), covers-sorted a xs)

length-insert_sorted : (a : ℤ) (xs : List ℤ) → length (insert_sorted a xs) ≡ suc (length xs)
unfolding insert_sorted
length-insert_sorted a [] = refl
length-insert_sorted a (x ∷ xs) = ground (arith, length-insert_sorted a xs)

length-sorted : (xs : List ℤ) → length (sorted xs) ≡ length xs
unfolding sorted
length-sorted [] = refl
length-sorted (x ∷ xs) = omega (arith, length-insert_sorted x (sorted xs), length-sorted xs)

-- The element at a position of a sorted list covers all up to it.
AllAtLeast-get_or :
    (a : ℤ) (xs : List ℤ) (i : ℕ) → AllAtLeast a xs → i < length xs → a ≤ℤ get_or xs i (pos 0)
AllAtLeast-get_or a [] i u h = elim h [ ]
AllAtLeast-get_or a (x ∷ xs) zero u h = u.0
AllAtLeast-get_or a (x ∷ xs) (suc i) u h = AllAtLeast-get_or a xs i u.1 (omega arith)

covers-get_or :
    (xs : List ℤ) (i : ℕ) → IsSorted xs → i < length xs → i < covers (get_or xs i (pos 0)) xs
covers-get_or [] i u h = elim h [ ]
covers-get_or (x ∷ xs) zero u h = ground arith
covers-get_or (x ∷ xs) (suc i) u h =
    ground (arith, covers-get_or xs i u.1, AllAtLeast-get_or x xs i u.0)

-- At least three quarters of the costs, sorted in any order, are covered by the quartile.
quartile-covers :
    (costs : List ℤ)
    → 0 < length costs
    → 3 * length costs ≤ 4 * covers (quartile (sorted costs)) costs
unfolding quartile
quartile-covers costs h = omega (
  arith,
  length-sorted costs,
  covers-sorted (get_or (sorted costs) ((3 * length (sorted costs) + 3) / 4 - 1) (pos 0)) costs,
  covers-get_or (sorted costs) ((3 * length (sorted costs) + 3) / 4 - 1) (sorted-IsSorted costs)
      (omega (arith, length-sorted costs)),
)

max_ℤ_left : (a b : ℤ) → a ≤ℤ max_ℤ a b
unfolding max_ℤ
max_ℤ_left a b = ground arith

dollar-le-maximum : (a : ℤ) (xs : List ℤ) → a ≤ℤ maximum a xs
unfolding maximum
dollar-le-maximum a [] = omega arith
dollar-le-maximum a (x ∷ xs) = omega (arith, max_ℤ_left a x, dollar-le-maximum (max_ℤ a x) xs)

evidence-sorted :
    (st : State) (model : String) (phase : Option String) (include_pending : Bool)
    → (raw : List ℤ) × (evidence st model phase include_pending ≡ sorted raw)
unfolding evidence
evidence-sorted st model phase include_pending = (_, refl)

abbrev MostCovered : List ℤ → Type 0
MostCovered costs = 3 * length costs ≤ 4 * covers (quartile costs) costs

sorted-MostCovered : (raw : List ℤ) → MostCovered (sorted raw)
sorted-MostCovered [] = unfold sorted in omega arith
sorted-MostCovered (r ∷ rs) = omega (
  arith,
  length-sorted (r ∷ rs),
  covers-sorted (quartile (sorted (r ∷ rs))) (r ∷ rs),
  quartile-covers (r ∷ rs) (omega arith),
)

price-covers :
    (costs raw recent : List ℤ)
    → costs ≡ sorted raw
    → (length costs ≡ 0 → dollar ≤ℤ price costs recent)
      × (3 * length costs ≤ 4 * covers (price costs recent) costs)
unfolding price
price-covers [] raw recent e = (λ _. dollar-le-maximum dollar recent, omega arith)
price-covers (c ∷ cs) raw recent e =
    (λ h. absurd (omega arith), subst (λ x. MostCovered x) (sym e) (sorted-MostCovered raw))

-- The estimate that an admission holds back is at least as large as three quarters of the costs
-- that it rests on, and with no cost to rest on it is at least a dollar.
pub estimate-covers :
    (st : State) (model : String) (phase : Option String) (include_pending : Bool)
    → let (costs, amount) = estimate st model phase include_pending in
      (length costs ≡ 0 → dollar ≤ℤ amount) × (3 * length costs ≤ 4 * covers amount costs)
unfolding estimate
estimate-covers st model phase include_pending =
    let (raw, e) = evidence-sorted st model phase include_pending in
    price-covers (evidence st model phase include_pending) raw _ e
