-- ===== src/Pace/Plateau.antt =====
-- tauceti_worker/quota.py: the stretch at the start of a curve that has no budget.
use tau_ceti_worker.Pace.Parsing.{IsPace}
use tau_ceti_worker.Prelude.{
  false, true, none, ap, some, ◌<◌, inr, inl, ◌⊎◌, ℕ, ◌≤◌, ◌*◌, ◌+◌, ◌-◌, arith, ◌≡◌, List, [], ◌∷◌,
  nat_eq, sym, subst,
}
use native.Mathlib.Nat.{mul-pos, mul-le-mul_right}
use tau_ceti_worker.Pace.Curve.{
  Curve, pace_zero_plateau, idle_init_block, pace_budget, Point, on_segment, budget_from,
  plateau_from,
}
use tau_ceti_worker.Pace.Sorted.{Ascending}
use tau_ceti_worker.Pace.Line.{over}
use tau_ceti_worker.Prelude.{Bool, filter, all, none, some}
use tau_ceti_worker.Pace.Curve.{Token, pace_curve}
use tau_ceti_worker.Pace.Window.{Window}
use tau_ceti_worker.Pace.Provider.{is_eligible, some_of, is_idle, is_under, not_idle}
use tau_ceti_worker.Pace.Parsing.{pace_curve-IsPace}

plateau_from-low : (p : Point) (qs : List Point) → Ascending p qs → p.0 ≤ plateau_from p.0 qs
unfolding plateau_from
plateau_from-low p [] a = omega arith
plateau_from-low p (q ∷ qs) (t, a) = ground (arith, plateau_from-low q qs a)

-- A segment that starts without budget has none where both ends have none, or at its start.
flat : (b c x y : ℕ) → b ≡ 0 → (c ≡ 0) ⊎ (y ≡ 0) → b * x + c * y ≡ 0
flat b c x y h (inl k) =
    subst (λ z. z * x + c * y ≡ 0) (sym h) (subst (λ z. 0 * x + z * y ≡ 0) (sym k) (omega arith))
flat b c x y h (inr k) =
    subst (λ z. z * x + c * y ≡ 0) (sym h) (subst (λ z. 0 * x + c * z ≡ 0) (sym k) (omega arith))

budget_from-zero :
    (p : Point) (qs : List Point) (n d : ℕ)
    → Ascending p qs
    → p.1 ≡ 0
    → p.0 * d ≤ n
    → n ≤ plateau_from p.0 qs * d
    → (budget_from p qs (over n d)).num ≡ 0
unfolding budget_from plateau_from on_segment
budget_from-zero p [] n d a z l u = z
budget_from-zero p (q ∷ qs) n d (t, a) z l u =
    let later = λ (k : q.1 ≡ 0) (v : q.0 * d ≤ n). budget_from-zero q qs n d a k v in
    ground (
      arith,
      later,
      flat p.1 q.1 (q.0 * d - n) (n - p.0 * d) z,
      mul-le-mul_right {m = p.0} {n = q.0} d (omega arith),
    )

-- Under a blocked curve there is no budget through the whole plateau.
pub pace_budget-blocked :
    (c : Curve) (tau n d : ℕ)
    → IsPace c
    → idle_init_block c ≡ some tau
    → n ≤ tau * d
    → (pace_budget c (over n d)).num ≡ 0
unfolding pace_budget idle_init_block pace_zero_plateau plateau_from budget_from on_segment
pace_budget-blocked c tau n d p h u =
    let from_first = budget_from-zero c.first c.rest n d p.ascends in
    ground (arith, from_first, ap (λ x. x * d) p.begins)

-- Between two points of which one has a budget there is a budget.
on_segment-positive :
    (p q : Point) (n d : ℕ)
    → p.0 ≡ 0
    → 0 < n
    → n < q.0 * d
    → (0 < p.1) ⊎ (0 < q.1)
    → 0 < (on_segment p q (over n d)).num
unfolding on_segment
on_segment-positive p q n d z h u (inl k) = ground (
  arith,
  ap (λ x. x * d) z,
  λ (e : q.0 ≡ p.0). ap (λ x. x * d) e,
  mul-pos {m = p.1} {n = q.0 * d - n} k (omega arith),
)
on_segment-positive p q n d z h u (inr k) = ground (
  arith,
  ap (λ x. x * d) z,
  λ (e : q.0 ≡ p.0). ap (λ x. x * d) e,
  mul-pos {m = q.1} {n = n - p.0 * d} k (omega (arith, ap (λ x. x * d) z)),
)

has_budget :
    (p q : Point) (qs : List Point)
    → Ascending p (q ∷ qs)
    → idle_init_block (record { first = p; rest = q ∷ qs }) ≡ none
    → (0 < p.1) ⊎ (0 < q.1)
unfolding idle_init_block pace_zero_plateau plateau_from
has_budget p q qs (t, a) h = ground (arith, plateau_from-low q qs a)

-- Right after the start, in the first segment.
opens :
    (p q : Point) (qs : List Point) (n d : ℕ)
    → IsPace (record { first = p; rest = q ∷ qs })
    → idle_init_block (record { first = p; rest = q ∷ qs }) ≡ none
    → 0 < n
    → n < q.0 * d
    → 0 < (pace_budget (record { first = p; rest = q ∷ qs }) (over n d)).num
unfolding pace_budget budget_from
opens p q qs n d is h l u =
    let positive = on_segment-positive p q n d is.begins l u (has_budget p q qs is.ascends h) in
    ground (arith, positive, ap (λ x. x * d) is.begins)

abbrev pub curve_with : Point → List Point → Curve
curve_with p qs = record { first = p; rest = qs }

pub idle_init_block-none :
    (c : Curve) (q : Point) (qs : List Point) (n d : ℕ)
    → IsPace c
    → c.rest ≡ q ∷ qs
    → idle_init_block c ≡ none
    → 0 < n
    → n < q.0 * d
    → 0 < (pace_budget c (over n d)).num
idle_init_block-none c q qs n d is e h l u =
    subst
      (λ r.
        IsPace (curve_with c.first r)
        → idle_init_block (curve_with c.first r) ≡ none
        → 0 < (pace_budget (curve_with c.first r) (over n d)).num)
      (sym e) (λ i k. opens c.first q qs n d i k l u) is h

-- While the curve blocks the opening of an idle window, it has no budget at any time up to the end
-- of the plateau that the block names.
pub idle_init_block-some :
    (ks : List Token) (tau n d : ℕ)
    → idle_init_block (pace_curve ks) ≡ some tau
    → n ≤ tau * d
    → (pace_budget (pace_curve ks) (over n d)).num ≡ 0
idle_init_block-some ks tau n d h u =
    pace_budget-blocked (pace_curve ks) tau n d (pace_curve-IsPace ks) h u

-- A bootstrap is eligible only if none is recorded, a window is idle, all the others are under pace,
-- and the active curve has a budget at every time after the start and short of its second point.
pub is_eligible-spendable :
    (ks : List Token) (recorded : Bool) (ws : List Window) (q : Point) (qs : List Point) (n d : ℕ)
    → is_eligible (pace_curve ks) recorded ws ≡ true
    → (pace_curve ks).rest ≡ q ∷ qs
    → 0 < n
    → n < q.0 * d
    → (recorded ≡ false)
      × (some_of (filter is_idle ws) ≡ true)
      × (all is_under (filter not_idle ws) ≡ true)
      × (0 < (pace_budget (pace_curve ks) (over n d)).num)
unfolding is_eligible
is_eligible-spendable ks recorded ws q qs n d h e l u = ground (arith, opened)
  where
    opened :
        idle_init_block (pace_curve ks) ≡ none → 0 < (pace_budget (pace_curve ks) (over n d)).num
    opened k = idle_init_block-none (pace_curve ks) q qs n d (pace_curve-IsPace ks) e k l u
