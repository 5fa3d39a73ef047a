-- ===== src/Pace/Curve.antt =====
-- tauceti_worker/quota.py: the pace curve. Percentages of time and of budget on a curve are whole
-- millionths of a percent; what divides is an exact fraction, where Python rounds.
use tau_ceti_worker.Prelude.{
  ℕ, ◌+◌, ◌*◌, ◌-◌, ltb, leb, min, nat_eq, ◌==◌, if◌then◌else◌, lookup, insert, Dict, Bool, true,
  false, Option, none, some, List, [], ◌∷◌,
}
use tau_ceti_worker.Prelude.Int.{ℤ, pos, negsuc, pos_part}

abbrev pub hundred : ℕ
hundred = 100000000

-- A fraction of numbers; `den` is positive.
pub record Frac : Type 0 where
  pub num : ℕ
  pub den : ℕ

-- A control point: a time and its budget.
abbrev pub Point : Type 0
Point = ℕ × ℕ

-- A list of control points that is not empty, `curve[0]` first.
pub record Curve : Type 0 where
  pub first : Point
  pub rest : List Point

pub data PaceError : Type 0 where
  not_a_pair not_numeric not_finite outside_window negative_budget conflicting no_points : PaceError

pub data Parsed {ℓ} (A : Type ℓ) : Type ℓ where
  failed : PaceError → Parsed A
  parsed : A → Parsed A

-- A piece between commas, stripped: nothing, text that is no pair of finite numbers, or a pair.
pub data Token : Type 0 where
  blank : Token
  faulty : PaceError → Token
  pair : ℤ → ℤ → Token

-- `_DEFAULT_PACE`
abbrev pub default_pace : Curve
default_pace = record { first = (0, 0); rest = (60000000, 40000000) ∷ (hundred, hundred) ∷ [] }

unfoldable pub put_point : ℕ → ℕ → Dict ℕ ℕ → Option ℕ → Parsed (Dict ℕ ℕ)
put_point t b pts none = parsed (insert t b pts)
put_point t b pts (some c) = if c == b then parsed (insert t b pts) else failed conflicting

-- One pair, with the tests in their order.
unfoldable pub read_pair : ℤ → ℤ → Dict ℕ ℕ → Parsed (Dict ℕ ℕ)
unfolding put_point
read_pair (negsuc t) b pts = failed outside_window
read_pair (pos t) (negsuc b) pts =
    if ltb hundred t then failed outside_window else failed negative_budget
read_pair (pos t) (pos b) pts =
    if ltb hundred t then failed outside_window else put_point t b pts (lookup t pts)

unfoldable pub read_token : Token → Dict ℕ ℕ → Parsed (Dict ℕ ℕ)
unfolding read_pair
read_token blank pts = parsed pts
read_token (faulty e) pts = failed e
read_token (pair t b) pts = read_pair t b pts

infixl 5 ◌>>=◌
abbrev pub ◌>>=◌ {ℓ κ} : {A : Type ℓ} {B : Type κ} → Parsed A → (A → Parsed B) → Parsed B
failed e >>= next = failed e
parsed x >>= next = next x

unfoldable pub read_points : List Token → Dict ℕ ℕ → Parsed (Dict ℕ ℕ)
unfolding read_token
read_points [] pts = parsed pts
read_points (k ∷ ks) pts = read_token k pts >>= read_points ks

-- `d.setdefault(k, v)`
abbrev pub set_default : ℕ → ℕ → Dict ℕ ℕ → Dict ℕ ℕ
set_default k v d = elim (lookup k d) [ none ↦ insert k v d | some w ↦ d ]

-- `sorted(pts.items())`: no two times are equal.
unfoldable pub place : Point → List Point → List Point
place p [] = p ∷ []
place p (q ∷ qs) = let rest = place p qs in if ltb p.0 q.0 then p ∷ q ∷ qs else q ∷ rest

unfoldable pub place_in : Point → Curve → Curve
unfolding place
place_in p c =
    if ltb p.0 (c.first).0
    then record { first = p; rest = c.first ∷ c.rest }
    else record { first = c.first; rest = place p c.rest }

unfoldable pub sort_from : Point → List Point → Curve
unfolding place_in
sort_from p [] = record { first = p; rest = [] }
sort_from p (q ∷ qs) = place_in p (sort_from q qs)

-- An empty dictionary does not come here: it has the endpoints.
unfoldable pub sorted_curve : Dict ℕ ℕ → Curve
unfolding sort_from
sorted_curve [] = default_pace
sorted_curve (p ∷ ps) = sort_from p ps

-- A specification with no comma in it has one piece, so one blank piece is an unset specification.
abbrev pub is_unset : List Token → Bool
is_unset [] = true
is_unset (k ∷ []) = true
is_unset (k ∷ j ∷ ks) = false

unfoldable pub complete_curve : List Token → Dict ℕ ℕ → Parsed Curve
unfolding sorted_curve
complete_curve ks [] = if is_unset ks then parsed default_pace else failed no_points
complete_curve ks (p ∷ ps) =
    parsed (sorted_curve (set_default hundred hundred (set_default 0 0 (p ∷ ps))))

-- `parse_pace_curve`
unfoldable pub parse_pace_curve : List Token → Parsed Curve
unfolding read_points complete_curve
parse_pace_curve ks = read_points ks [] >>= complete_curve ks

-- `pace_curve`
unfoldable pub pace_curve : List Token → Curve
unfolding parse_pace_curve
pace_curve ks = elim (parse_pace_curve ks) [ failed e ↦ default_pace | parsed c ↦ c ]

-- The budget at time e in the segment from (pt, pb) to (t, b), where pt ≤ e ≤ t.
unfoldable pub on_segment : Point → Point → Frac → Frac
on_segment p q e = if q.0 == p.0 then record { num = q.1; den = 1 } else record {
  num = p.1 * (q.0 * e.den - e.num) + q.1 * (e.num - p.0 * e.den);
  den = (q.0 - p.0) * e.den;
}

unfoldable pub budget_from : Point → List Point → Frac → Frac
unfolding on_segment
budget_from p [] e = record { num = p.1; den = 1 }
budget_from p (q ∷ qs) e =
    let rest = budget_from q qs e in if leb e.num (q.0 * e.den) then on_segment p q e else rest

-- `max(0.0, min(100.0, elapsed))` of an elapsed time over a positive number.
unfoldable pub clamp : ℤ → ℕ → Frac
clamp n d = record { num = min (pos_part n) (hundred * d); den = d }

-- `pace_budget`, of a clamped time
unfoldable pub pace_budget : Curve → Frac → Frac
unfolding budget_from
pace_budget c e = budget_from c.first (c.first ∷ c.rest) e

unfoldable pub plateau_from : ℕ → List Point → ℕ
plateau_from plateau [] = plateau
plateau_from plateau (p ∷ ps) = let rest = plateau_from p.0 ps in if p.1 == 0 then rest else plateau

-- `pace_zero_plateau`
unfoldable pub pace_zero_plateau : Curve → ℕ
unfolding plateau_from
pace_zero_plateau c = plateau_from 0 (c.first ∷ c.rest)

-- `_idle_init_block`: the plateau of which it speaks, if there is one.
unfoldable pub idle_init_block : Curve → Option ℕ
unfolding pace_zero_plateau
idle_init_block c = let tau = pace_zero_plateau c in if tau == 0 then none else some tau
