-- ===== src/Pace/Waiting.antt =====
-- tauceti_worker/quota.py: where `pace_recovery` finds no instant, the budget stays at the usage.
use tau_ceti_worker.Prelude.{
  ◌*◌, ◌+◌, ◌-◌, ◌≤◌, ◌<◌, ◌≡◌, ℕ, ltb, leb, arith, true, false, none, List, [], ◌∷◌, subst, subst₂,
  sym, Bool-cases, inl, inr, leb→le, ltb→lt,
}
use native.Mathlib.Nat.{mul-le-mul_right}
use tau_ceti_worker.Pace.Parsing.{IsPace, pace_curve-IsPace}
use tau_ceti_worker.Pace.Recovery.{exceeds, recovery_start, pace_recovery}
use tau_ceti_worker.Prelude.{ap, ◌∙◌, Option-cases, true, false, none}
use tau_ceti_worker.Pace.Curve.{Token, pace_curve, pace_budget}
use tau_ceti_worker.Prelude.Int.{ℤ, pos, negsuc}
use tau_ceti_worker.Pace.Curve.{
  Point, Frac, Curve, Token, pace_curve, pace_budget, budget_from, on_segment,
}
use tau_ceti_worker.Pace.Sorted.{Ascending}
use tau_ceti_worker.Pace.Line.{no_width, over, ◌≤F◌, width}
use tau_ceti_worker.Pace.Parsing.{pace_curve-IsPace}
use tau_ceti_worker.Pace.Recovery.{exceeds, first_above, recovery_start, pace_recovery}

-- The budgets of the points after a time are at most u.
abbrev LowAfter : ℕ → ℕ → ℕ → List Point → Type 0
LowAfter n d u [] = Unit
LowAfter n d u (q ∷ qs) = (n < q.0 * d → q.1 ≤ u) × LowAfter n d u qs

first_above-none :
    (p : Point) (qs : List Point) (n d u : ℕ)
    → first_above p qs (over n d) u ≡ none
    → LowAfter n d u qs
unfolding first_above
first_above-none p [] n d u h = tt
first_above-none p (q ∷ qs) n d u h = ground (arith, first_above-none q qs n d u)

weighted : (b c u x y : ℕ) → b ≤ u → c ≤ u → b * x + c * y ≤ u * (x + y)
weighted b c u x y h k =
    omega (arith, mul-le-mul_right {m = b} {n = u} x h, mul-le-mul_right {m = c} {n = u} y k)

-- A segment stays below where both its ends do.
segment_under :
    (b c u lo hi m : ℕ)
    → b ≤ u
    → c ≤ u
    → lo ≤ m
    → m ≤ hi
    → b * (hi - m) + c * (m - lo) ≤ u * (hi - lo)
segment_under b c u lo hi m h k l r =
    subst (λ z. b * (hi - m) + c * (m - lo) ≤ u * z) (omega arith)
      (weighted b c u (hi - m) (m - lo) h k)

-- A segment that falls.
mean_down : (b c x y s : ℕ) → c ≤ b → b * x + c * (s + y) ≤ b * (x + y) + c * s
mean_down b c x y s h = omega (arith, mul-le-mul_right {m = c} {n = b} y h)

segment_down :
    (b c lo hi m n : ℕ)
    → c ≤ b
    → lo ≤ m
    → m ≤ n
    → n ≤ hi
    → b * (hi - n) + c * (n - lo) ≤ b * (hi - m) + c * (m - lo)
segment_down b c lo hi m n h l k u =
    subst₂ (λ x y. b * (hi - n) + c * x ≤ b * y + c * (m - lo)) (omega arith) (omega arith)
      (mean_down b c (hi - n) (n - m) (m - lo) h)

on_segment-under :
    (p q : Point) (m d u : ℕ)
    → p.0 < q.0
    → p.0 * d ≤ m
    → m ≤ q.0 * d
    → p.1 ≤ u
    → q.1 ≤ u
    → on_segment p q (over m d) ≤F over u 1
unfolding on_segment
on_segment-under p q m d u s l r low high = ground (
  arith,
  width u q.0 p.0 d (omega arith),
  segment_under p.1 q.1 u (p.0 * d) (q.0 * d) m low high l r,
)

on_segment-down :
    (p q : Point) (m n d u : ℕ)
    → p.0 < q.0
    → p.0 * d ≤ m
    → m ≤ n
    → n ≤ q.0 * d
    → q.1 ≤ p.1
    → on_segment p q (over m d) ≤F over u 1
    → on_segment p q (over n d) ≤F over u 1
unfolding on_segment
on_segment-down p q m n d u s l k r fall low =
    ground (arith, segment_down p.1 q.1 (p.0 * d) (q.0 * d) m n fall l k r)

-- From a point at or below the usage, with only such points after it.
under_after :
    (p : Point) (qs : List Point) (n m d u : ℕ)
    → 0 < d
    → Ascending p qs
    → n ≤ p.0 * d
    → p.0 * d ≤ m
    → p.1 ≤ u
    → LowAfter n d u qs
    → budget_from p qs (over m d) ≤F over u 1
unfolding budget_from
under_after p [] n m d u pd a e l low after = omega arith
under_after p (q ∷ qs) n m d u pd (t, a) e l low (this, after) =
    let past : p.0 * d < q.0 * d =
      omega (arith, mul-le-mul_right {m = p.0 + 1} {n = q.0} d (omega arith)) in
    let at_q : q.1 ≤ u = this (omega arith) in
    ground (
      arith,
      λ (r : m ≤ q.0 * d). on_segment-under p q m d u t l r low at_q,
      λ (r : q.0 * d ≤ m). under_after q qs n m d u pd a (omega arith) r at_q after,
    )

cancel : (a b w : ℕ) → 0 < w → a * w ≤ b * w → a ≤ b
cancel a b w p h = elim (Bool-cases (leb a b)) [
  | inl low ↦ leb→le a b low
  | inr high ↦ absurd (omega (arith, mul-le-mul_right {m = b + 1} {n = a} w (ground arith)))
]

-- At its end a segment has its end's budget.
on_segment-end :
    (p q : Point) (d u : ℕ)
    → 0 < d
    → p.0 < q.0
    → on_segment p q (over (q.0 * d) d) ≤F over u 1
    → q.1 ≤ u
unfolding on_segment
on_segment-end p q d u pd t low =
    cancel q.1 u (q.0 * d - p.0 * d) wide
      (ground (arith, no_width p.1 (q.0 * d), width u q.0 p.0 d (omega arith)))
  where
    wide : 0 < q.0 * d - p.0 * d
    wide = omega (arith, mul-le-mul_right {m = p.0 + 1} {n = q.0} d (omega arith))

-- Through one segment, from an instant in it.
segment_still :
    (p q : Point) (n m d u : ℕ)
    → p.0 < q.0
    → p.0 * d ≤ n
    → n ≤ m
    → m ≤ q.0 * d
    → (n < q.0 * d → q.1 ≤ u)
    → on_segment p q (over n d) ≤F over u 1
    → on_segment p q (over m d) ≤F over u 1
segment_still p q n m d u t l k r this low = elim (Bool-cases (leb q.1 p.1)) [
  | inl fall ↦ on_segment-down p q n m d u t l k r (leb→le q.1 p.1 fall) low
  | inr rise ↦ elim (Bool-cases (ltb n (q.0 * d))) [
    | inl short ↦
        let at_q = this (ltb→lt n (q.0 * d) short) in
        on_segment-under p q m d u t (omega arith) r (ground arith) at_q
    | inr end ↦ subst (λ x. on_segment p q (over x d) ≤F over u 1) (ground arith) low
  ]
]

still_under :
    (p : Point) (qs : List Point) (n m d u : ℕ)
    → 0 < d
    → Ascending p qs
    → p.0 * d ≤ n
    → n ≤ m
    → LowAfter n d u qs
    → budget_from p qs (over n d) ≤F over u 1
    → budget_from p qs (over m d) ≤F over u 1
unfolding budget_from
still_under p [] n m d u pd a l k after low = low
still_under p (q ∷ qs) n m d u pd (t, a) l k (this, after) low = ground (
  arith,
  λ (r : m ≤ q.0 * d). segment_still p q n m d u t l k r this,
  λ (r : q.0 * d ≤ m) (e : q.0 * d ≤ n). still_under q qs n m d u pd a e k after,
  λ (r : q.0 * d ≤ m) (e : n ≤ q.0 * d) (v : q.1 ≤ u). under_after q qs n m d u pd a e r v after,
  λ (e : q.0 * d ≡ n) (v : on_segment p q (over n d) ≤F over u 1).
      on_segment-end p q d u pd t (subst (λ x. on_segment p q (over x d) ≤F over u 1) (sym e) v),
)

pace_budget-under :
    (c : Curve) (n m d u : ℕ)
    → 0 < d
    → n ≤ m
    → IsPace c
    → LowAfter n d u c.rest
    → pace_budget c (over n d) ≤F over u 1
    → pace_budget c (over m d) ≤F over u 1
unfolding pace_budget budget_from on_segment
pace_budget-under c n m d u pd k is after low =
    let zero_is : (c.first).0 * d ≡ 0 = ap (λ x. x * d) is.begins ∙ omega arith in
    let on =
      λ (r : 0 < n). still_under c.first c.rest n m d u pd is.ascends (omega arith) k after in
    let from_zero = λ (v : (c.first).1 ≤ u) (z : n ≤ 0).
      under_after c.first c.rest n m d u pd is.ascends (omega arith) (omega arith) v after in
    ground (arith, zero_is, on, from_zero)

recovery_start-none :
    (c : Curve) (u : ℕ) (e : Frac)
    → recovery_start c (pos u) e ≡ none
    → (exceeds (pace_budget c e) (pos u) ≡ false)
      × (first_above c.first (c.first ∷ c.rest) e u ≡ none)
unfolding recovery_start
recovery_start-none c u e h = elim (Bool-cases (exceeds (pace_budget c e) (pos u))) [
  | inl free ↦ absurd (cc (rw free at h))
  | inr held ↦ (held, rw held at h)
]

pace_recovery-start :
    (c : Curve) (used : ℤ) (e : Frac)
    → pace_recovery c used e ≡ none
    → recovery_start c used e ≡ none
unfolding pace_recovery
pace_recovery-start c used e h = elim (Option-cases (recovery_start c used e)) [
  | inl nothing ↦ nothing
  | inr (start, found) ↦ absurd (cc (rw (pace_recovery, found) at h))
]

not_exceeds : (f : Frac) (u : ℕ) → f ≤F over u 1 → exceeds f (pos u) ≡ false
not_exceeds f u h = ground arith

under_of : (f : Frac) (u : ℕ) → exceeds f (pos u) ≡ false → f ≤F over u 1
under_of f u h = ground arith

held_below :
    (c : Curve) (u n m d : ℕ)
    → 0 < d
    → n ≤ m
    → IsPace c
    → recovery_start c (pos u) (over n d) ≡ none
    → exceeds (pace_budget c (over m d)) (pos u) ≡ false
held_below c u n m d pd k is h =
    let (held, above) = recovery_start-none c u (over n d) h in
    not_exceeds (pace_budget c (over m d)) u (
      pace_budget-under c n m d u pd k is
        (first_above-none c.first (c.first ∷ c.rest) n d u above).1
        (under_of (pace_budget c (over n d)) u held))

below_zero : (c : Curve) (u : ℕ) (e : Frac) → recovery_start c (negsuc u) e ≡ none → true ≡ false
unfolding recovery_start
below_zero c u e h = absurd (cc)

-- Where the wait finds no instant, the budget is at most the usage now and at every later time, so
-- only the reset of the window frees it.
pub pace_recovery-none :
    (ks : List Token) (used : ℤ) (n m d : ℕ)
    → 0 < d
    → n ≤ m
    → pace_recovery (pace_curve ks) used (over n d) ≡ none
    → exceeds (pace_budget (pace_curve ks) (over m d)) used ≡ false
pace_recovery-none ks (negsuc u) n m d pd k h =
    below_zero (pace_curve ks) u (over n d)
      (pace_recovery-start (pace_curve ks) (negsuc u) (over n d) h)
pace_recovery-none ks (pos u) n m d pd k h =
    held_below (pace_curve ks) u n m d pd k (pace_curve-IsPace ks)
      (pace_recovery-start (pace_curve ks) (pos u) (over n d) h)
