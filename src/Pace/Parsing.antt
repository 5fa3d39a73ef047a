-- ===== src/Pace/Parsing.antt =====
-- tauceti_worker/quota.py: what `parse_pace_curve` answers.
use tau_ceti_worker.Prelude.{
  ℕ, ◌≤◌, arith, ◌≡◌, refl, Option, none, some, List, [], ◌∷◌, Option-cases, inl, inr, ◌∙◌, Dict,
  lookup, insert, lookup-insert, nat_eq, beq_refl,
}
use tau_ceti_worker.Prelude.Int.{pos, negsuc}
use tau_ceti_worker.Pace.Curve.{
  Curve, Point, Token, blank, faulty, pair, Parsed, failed, parsed, hundred, default_pace,
  put_point, read_pair, read_token, read_points, set_default, sorted_curve, complete_curve,
  parse_pace_curve, pace_curve, ◌>>=◌,
}
use tau_ceti_worker.Pace.Sorted.{
  Ascending, Distinct, Within, points, IsSorted, sort_from-IsSorted, insert-Distinct, insert-Within,
  lookup-before,
}

-- Distinct times, none above 100 percent.
abbrev pub IsDict : Dict ℕ ℕ → Type 0
IsDict d = Distinct d × Within d

-- A predicate on what is parsed.
abbrev pub If {ℓ κ} : {A : Type ℓ} → (A → Type κ) → Parsed A → Type κ
If P (failed e) = Unit
If P (parsed x) = P x

insert-IsDict : (t b : ℕ) (d : Dict ℕ ℕ) → IsDict d → t ≤ hundred → IsDict (insert t b d)
insert-IsDict t b d h l = (insert-Distinct t b d h.0, insert-Within t b d h.1 l)

put_point-IsDict :
    (t b : ℕ) (d : Dict ℕ ℕ) (o : Option ℕ) → IsDict d → t ≤ hundred → If IsDict (put_point t b d o)
unfolding put_point
put_point-IsDict t b d none h l = insert-IsDict t b d h l
put_point-IsDict t b d (some c) h l = ground (arith, insert-IsDict t b d h l)

read_token-IsDict : (k : Token) (d : Dict ℕ ℕ) → IsDict d → If IsDict (read_token k d)
unfolding read_token read_pair
read_token-IsDict blank d h = h
read_token-IsDict (faulty e) d h = tt
read_token-IsDict (pair (negsuc t) b) d h = tt
read_token-IsDict (pair (pos t) (negsuc b)) d h = ground arith
read_token-IsDict (pair (pos t) (pos b)) d h = ground (arith, put_point-IsDict t b d (lookup t d) h)

pub bind-If {ℓ κ} :
    {A : Type ℓ} {B : Type ℓ} (P : A → Type κ) (Q : B → Type κ) (x : Parsed A) (next : A → Parsed B)
    → If P x
    → ((a : A) → P a → If Q (next a))
    → If Q (x >>= next)
bind-If P Q (failed e) next h f = tt
bind-If P Q (parsed a) next h f = f a h

pub read_points-IsDict : (ks : List Token) (d : Dict ℕ ℕ) → IsDict d → If IsDict (read_points ks d)
unfolding read_points
read_points-IsDict [] d h = h
read_points-IsDict (k ∷ ks) d h =
    bind-If IsDict IsDict (read_token k d) (read_points ks) (read_token-IsDict k d h)
      (read_points-IsDict ks)

-- Times ascend from 0 to 100 percent.
pub record IsPace (c : Curve) : Type 0 where
  pub begins : (c.first).0 ≡ 0
  pub ascends : Ascending c.first c.rest
  pub within : Within (points c)
  pub ends : (b : ℕ) × (lookup hundred (points c) ≡ some b)

default_pace-IsPace : IsPace default_pace
unfolding lookup
default_pace-IsPace = record {
  begins = refl;
  ascends = ground arith;
  within = ground arith;
  ends = (hundred, refl);
}

set_default-IsDict : (k v : ℕ) (d : Dict ℕ ℕ) → IsDict d → k ≤ hundred → IsDict (set_default k v d)
set_default-IsDict k v d h l = ground (arith, insert-IsDict k v d h l)

-- A default stands beside what is there.
pub lookup-set_default :
    (j k v : ℕ) (d : Dict ℕ ℕ) (b : ℕ) → lookup j d ≡ some b → lookup j (set_default k v d) ≡ some b
lookup-set_default j k v d b h = ground (arith, lookup-insert j k v d)

set_default-new :
    (k v : ℕ) (d : Dict ℕ ℕ) → lookup k d ≡ none → lookup k (set_default k v d) ≡ some v
set_default-new k v d h = ground (arith, lookup-insert k k v d, beq_refl k)

set_default-given : (k v : ℕ) (d : Dict ℕ ℕ) → (b : ℕ) × (lookup k (set_default k v d) ≡ some b)
set_default-given k v d = elim (Option-cases (lookup k d)) [
  | inl n ↦ (v, set_default-new k v d n)
  | inr (w, e) ↦ (w, lookup-set_default k k v d w e)
]

first-zero :
    (p : Point) (qs : List Point) (b : ℕ) → Ascending p qs → lookup 0 (p ∷ qs) ≡ some b → p.0 ≡ 0
first-zero p qs b a h = ground (arith, lookup-before 0 p qs a)

-- A dictionary with both endpoints is sorted to a pace curve that holds what it holds.
sorted_curve-IsSorted :
    (d : Dict ℕ ℕ) (b : ℕ) → IsDict d → lookup 0 d ≡ some b → IsSorted d (sorted_curve d)
unfolding sorted_curve lookup
sorted_curve-IsSorted [] b h l = ground arith
sorted_curve-IsSorted (p ∷ ps) b h l = sort_from-IsSorted p ps h.0 h.1

IsSorted-IsPace :
    (d : Dict ℕ ℕ) (c : Curve) (b e : ℕ)
    → IsSorted d c
    → lookup 0 d ≡ some b
    → lookup hundred d ≡ some e
    → IsPace c
IsSorted-IsPace d c b e s h k = record {
  begins = first-zero c.first c.rest b s.ascending (s.same 0 ∙ h);
  ascends = s.ascending;
  within = s.within;
  ends = (e, s.same hundred ∙ k);
}

abbrev pub with_endpoints : Dict ℕ ℕ → Dict ℕ ℕ
with_endpoints d = set_default hundred hundred (set_default 0 0 d)

zero_given : (d : Dict ℕ ℕ) → (b : ℕ) × (lookup 0 (with_endpoints d) ≡ some b)
zero_given d =
    let z = set_default-given 0 0 d in
    (z.0, lookup-set_default 0 hundred hundred (set_default 0 0 d) z.0 z.1)

pub with_endpoints-IsSorted :
    (d : Dict ℕ ℕ) → IsDict d → IsSorted (with_endpoints d) (sorted_curve (with_endpoints d))
with_endpoints-IsSorted d h =
    sorted_curve-IsSorted (with_endpoints d) (zero_given d).0
      (set_default-IsDict hundred hundred (set_default 0 0 d)
        (set_default-IsDict 0 0 d h (omega arith)) (omega arith))
      (zero_given d).1

with_endpoints-IsPace : (d : Dict ℕ ℕ) → IsDict d → IsPace (sorted_curve (with_endpoints d))
with_endpoints-IsPace d h =
    let last = set_default-given hundred hundred (set_default 0 0 d) in
    IsSorted-IsPace (with_endpoints d) (sorted_curve (with_endpoints d)) (zero_given d).0 last.0
      (with_endpoints-IsSorted d h) (zero_given d).1 last.1

complete_curve-IsPace :
    (ks : List Token) (d : Dict ℕ ℕ) → IsDict d → If IsPace (complete_curve ks d)
unfolding complete_curve
complete_curve-IsPace ks [] h = ground (arith, default_pace-IsPace)
complete_curve-IsPace ks (p ∷ ps) h = with_endpoints-IsPace (p ∷ ps) h

parse_pace_curve-IsPace : (ks : List Token) → If IsPace (parse_pace_curve ks)
unfolding parse_pace_curve
parse_pace_curve-IsPace ks =
    bind-If IsDict IsPace (read_points ks []) (complete_curve ks)
      (read_points-IsDict ks [] (tt, tt)) (complete_curve-IsPace ks)

-- Whatever the specification, the active curve has times that ascend strictly from 0 to 100 percent.
pub pace_curve-IsPace : (ks : List Token) → IsPace (pace_curve ks)
unfolding pace_curve
pace_curve-IsPace ks = ground (arith, parse_pace_curve-IsPace ks, default_pace-IsPace)
