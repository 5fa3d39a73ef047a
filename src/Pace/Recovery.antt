-- ===== src/Pace/Recovery.antt =====
-- tauceti_worker/quota.py: `pace_recovery`, when a window that is held by the pace is free again.
-- Times and crossings are exact fractions of the window, where Python rounds.
use tau_ceti_worker.Prelude.{
  ◌*◌, ◌+◌, ◌-◌, ◌&&◌, ℕ, ltb, leb, Bool, true, Option, none, some, List, [], ◌∷◌, if◌then◌else◌,
}
use tau_ceti_worker.Prelude.Int.{ℤ, pos, negsuc}
use tau_ceti_worker.Pace.Curve.{hundred, Point, Frac, Curve, pace_budget}

-- A usage below zero is below every budget.
abbrev pub exceeds : Frac → ℤ → Bool
exceeds f (pos u) = ltb (u * f.den) f.num
exceeds f (negsuc u) = true

abbrev pub later_of : Frac → Frac → Frac
later_of e f = if ltb (e.num * f.den) (f.num * e.den) then f else e

-- Where the segment from p to q passes the usage; where it does not rise, its end.
unfoldable pub rises_at : Point → Point → Frac → ℕ → Frac
rises_at p q e u =
    if leb q.0 p.0
    then record { num = q.0; den = 1 }
    else if leb q.1 p.1
    then record { num = q.0; den = 1 }
    else later_of (record { num = p.0 * (q.1 - p.1) + (u - p.1) * (q.0 - p.0); den = q.1 - p.1 }) e

unfoldable pub first_above : Point → List Point → Frac → ℕ → Option Frac
unfolding rises_at
first_above p [] e u = none
first_above p (q ∷ qs) e u =
    let rest = first_above q qs e u in
    if ltb e.num (q.0 * e.den) && ltb u q.1 then some (rises_at p q e u) else rest

unfoldable pub recovery_start : Curve → ℤ → Frac → Option Frac
unfolding first_above pace_budget
recovery_start c used e =
    if exceeds (pace_budget c e) used
    then some e
    else elim used [ pos u ↦ first_above c.first (c.first ∷ c.rest) e u | negsuc u ↦ none ]

-- Where the segment from p to q drops back to the usage; where it does not fall, its end.
unfoldable pub falls_at : Point → Point → ℕ → Frac
falls_at p q u =
    if leb q.0 p.0
    then record { num = q.0; den = 1 }
    else if leb p.1 q.1
    then record { num = q.0; den = 1 }
    else record { num = p.0 * (p.1 - q.1) + (p.1 - u) * (q.0 - p.0); den = p.1 - q.1 }

unfoldable pub first_below : Point → List Point → Frac → ℕ → Frac
unfolding falls_at
first_below p [] start u = record { num = hundred; den = 1 }
first_below p (q ∷ qs) start u =
    let rest = first_below q qs start u in
    if ltb start.num (q.0 * start.den) && leb q.1 u then later_of (falls_at p q u) start else rest

unfoldable pub recovery_end : Curve → ℤ → Frac → Frac
unfolding first_below
recovery_end c (pos u) start = first_below c.first (c.first ∷ c.rest) start u
recovery_end c (negsuc u) start = record { num = hundred; den = 1 }

-- `pace_recovery`, of a clamped time
unfoldable pub pace_recovery : Curve → ℤ → Frac → Option (Frac × Frac)
unfolding recovery_start recovery_end
pace_recovery c used e = elim (recovery_start c used e) [
  | none ↦ none
  | some start ↦ some (start, recovery_end c used start)
]
