-- ===== src/Pace/Line.antt =====
-- tauceti_worker/quota.py: the budget line of a curve.
use tau_ceti_worker.Prelude.{
  sym, ◌∙◌, subst, ap, ◌≡◌, subst₂, ℕ, ◌≤◌, ◌*◌, ◌+◌, ◌-◌, arith, List, [], ◌∷◌,
}
use native.Mathlib.Nat.{mul-le-mul_right}
use tau_ceti_worker.Pace.Curve.{hundred, Curve, pace_budget, budget_from, Point, Frac, on_segment}
use tau_ceti_worker.Prelude.Int.{ℤ, pos_part, ◌≤ℤ◌}
use tau_ceti_worker.Pace.Curve.{Token, pace_curve, clamp}
use tau_ceti_worker.Pace.Sorted.{Ascending}
use tau_ceti_worker.Pace.Parsing.{pace_curve-IsPace}
use tau_ceti_worker.Prelude.{min}

abbrev pub over : ℕ → ℕ → Frac
over n d = record { num = n; den = d }

infix 50 ◌≤F◌
-- e ≤ f, for fractions with positive denominators.
abbrev pub ◌≤F◌ : Frac → Frac → Type 0
e ≤F f = e.num * f.den ≤ f.num * e.den

-- Budgets nowhere fall.
abbrev pub Rising : Point → List Point → Type 0
Rising p [] = Unit
Rising p (q ∷ qs) = (p.1 ≤ q.1) × Rising q qs

-- Neither times nor budgets fall.
abbrev pub Climbing : Point → List Point → Type 0
Climbing p [] = Unit
Climbing p (q ∷ qs) = (p.0 ≤ q.0) × (p.1 ≤ q.1) × Climbing q qs

-- A mean of b and c moves towards c.
pub mean_mono : (b c x y s : ℕ) → b ≤ c → b * (s + y) + c * x ≤ b * s + c * (x + y)
mean_mono b c x y s h = omega (arith, mul-le-mul_right {m = b} {n = c} y h)

segment_mono :
    (b c lo hi m n : ℕ)
    → b ≤ c
    → lo ≤ m
    → m ≤ n
    → n ≤ hi
    → b * (hi - m) + c * (m - lo) ≤ b * (hi - n) + c * (n - lo)
segment_mono b c lo hi m n h l k u =
    subst₂ (λ x y. b * x + c * (m - lo) ≤ b * (hi - n) + c * y) (omega arith) (omega arith)
      (mean_mono b c (m - lo) (n - m) (hi - n) h)

on_segment-mono :
    (p q : Point) (m n d : ℕ)
    → p.1 ≤ q.1
    → m ≤ n
    → p.0 * d ≤ m
    → n ≤ q.0 * d
    → on_segment p q (over m d) ≤F on_segment p q (over n d)
unfolding on_segment
on_segment-mono p q m n d b h l u = ground (
  arith,
  mul-le-mul_right ((q.0 - p.0) * d) (segment_mono p.1 q.1 (p.0 * d) (q.0 * d) m n b l h u),
)

span : (a b d : ℕ) → b ≤ a → a * d ≡ b * d + (a - b) * d
span a b d h = ap (λ x. x * d) split ∙ dist_right b (a - b) d
  where
    split : a ≡ b + (a - b)
    split = omega arith

    dist_right : (x y z : ℕ) → (x + y) * z ≡ x * z + y * z
    dist_right x y z = omega arith

pub width : (k a b d : ℕ) → b ≤ a → k * ((a - b) * d) ≡ k * (a * d - b * d)
width k a b d h = ap (λ x. k * x) (omega (arith, span a b d h))

pub no_width : (c x : ℕ) → c * (x - x) ≡ 0
no_width c x = ap (λ z. c * z) same ∙ omega arith
  where
    same : x - x ≡ 0
    same = omega arith

segment_low :
    (b c lo hi m : ℕ) → b ≤ c → lo ≤ m → m ≤ hi → b * (hi - lo) ≤ b * (hi - m) + c * (m - lo)
segment_low b c lo hi m h l u =
    omega (arith, no_width c lo, segment_mono b c lo hi lo m h (omega arith) l u)

pub segment_high :
    (b c lo hi m : ℕ) → b ≤ c → lo ≤ m → m ≤ hi → b * (hi - m) + c * (m - lo) ≤ c * (hi - lo)
segment_high b c lo hi m h l u =
    omega (arith, no_width b hi, segment_mono b c lo hi m hi h l u (omega arith))

on_segment-low :
    (p q : Point) (m d : ℕ)
    → p.0 ≤ q.0
    → p.1 ≤ q.1
    → p.0 * d ≤ m
    → m ≤ q.0 * d
    → over p.1 1 ≤F on_segment p q (over m d)
unfolding on_segment
on_segment-low p q m d t b l u =
    ground (arith, width p.1 q.0 p.0 d t, segment_low p.1 q.1 (p.0 * d) (q.0 * d) m b l u)

on_segment-high :
    (p q : Point) (m d : ℕ)
    → p.0 ≤ q.0
    → p.1 ≤ q.1
    → p.0 * d ≤ m
    → m ≤ q.0 * d
    → on_segment p q (over m d) ≤F over q.1 1
unfolding on_segment
on_segment-high p q m d t b l u =
    ground (arith, width q.1 q.0 p.0 d t, segment_high p.1 q.1 (p.0 * d) (q.0 * d) m b l u)

-- Through a whole budget.
trans_through : (e f : Frac) (b : ℕ) → e ≤F over b 1 → over b 1 ≤F f → e ≤F f
trans_through e f b h k = omega (
  arith,
  mul-le-mul_right {m = e.num * 1} {n = b * e.den} f.den h,
  mul-le-mul_right {m = b * f.den} {n = f.num * 1} e.den k,
)

raise : (b c : ℕ) (f : Frac) → b ≤ c → over c 1 ≤F f → over b 1 ≤F f
raise b c f h k = omega (arith, mul-le-mul_right {m = b} {n = c} f.den h, k)

budget_from-low :
    (p : Point) (qs : List Point) (m d : ℕ)
    → Climbing p qs
    → p.0 * d ≤ m
    → over p.1 1 ≤F budget_from p qs (over m d)
unfolding budget_from
budget_from-low p [] m d c l = omega arith
budget_from-low p (q ∷ qs) m d (t, b, c) l =
    let later = λ (u : q.0 * d ≤ m).
      raise p.1 q.1 (budget_from q qs (over m d)) b (budget_from-low q qs m d c u) in
    ground (arith, on_segment-low p q m d t b l, later)

budget_from-mono :
    (p : Point) (qs : List Point) (m n d : ℕ)
    → Climbing p qs
    → p.0 * d ≤ m
    → m ≤ n
    → budget_from p qs (over m d) ≤F budget_from p qs (over n d)
unfolding budget_from
budget_from-mono p [] m n d c l h = omega arith
budget_from-mono p (q ∷ qs) m n d (t, b, c) l h =
    let across = λ (u : m ≤ q.0 * d) (v : q.0 * d ≤ n).
      trans_through (on_segment p q (over m d)) (budget_from q qs (over n d)) q.1
        (on_segment-high p q m d t b l u) (budget_from-low q qs n d c v) in
    let later = λ (u : q.0 * d ≤ m). budget_from-mono q qs m n d c u h in
    ground (arith, on_segment-mono p q m n d b h l, across, later)

Climbing-start : (p : Point) (qs : List Point) → Climbing p qs → Climbing p (p ∷ qs)
Climbing-start p qs c = (omega arith, omega arith, c)

-- The budget does not fall while a window runs, if the curve's budgets do not: an instant is a
-- number of parts, the same parts for both.
pub pace_budget-mono :
    (c : Curve) (m n d : ℕ)
    → Climbing c.first c.rest
    → (c.first).0 ≡ 0
    → m ≤ n
    → pace_budget c (over m d) ≤F pace_budget c (over n d)
unfolding pace_budget
pace_budget-mono c m n d k z h =
    budget_from-mono c.first (c.first ∷ c.rest) m n d (Climbing-start c.first c.rest k) begins h
  where
    begins : (c.first).0 * d ≤ m
    begins = subst (λ x. x * d ≤ m) (sym z) (omega arith)

Climbing-of : (p : Point) (qs : List Point) → Ascending p qs → Rising p qs → Climbing p qs
Climbing-of p [] a r = tt
Climbing-of p (q ∷ qs) (t, a) (b, r) = (omega arith, b, Climbing-of q qs a r)

pos_part_mono : (x y : ℤ) → x ≤ℤ y → pos_part x ≤ pos_part y
pos_part_mono x y h = ground arith

-- While a window runs the budget does not fall, if the budgets of the active curve's points do not:
-- for two elapsed times over one length, also those before its start and after its end.
pub pace_curve-mono :
    (ks : List Token) (x y : ℤ) (d : ℕ)
    → Rising ((pace_curve ks).first) ((pace_curve ks).rest)
    → x ≤ℤ y
    → pace_budget (pace_curve ks) (clamp x d) ≤F pace_budget (pace_curve ks) (clamp y d)
unfolding clamp
pace_curve-mono ks x y d r h =
    let is = pace_curve-IsPace ks in
    pace_budget-mono (pace_curve ks) (min (pos_part x) (hundred * d))
      (min (pos_part y) (hundred * d)) d
      (Climbing-of (pace_curve ks).first (pace_curve ks).rest is.ascends r) is.begins
      (omega (arith, pos_part_mono x y h))
