-- ===== src/Pace/Held.antt =====
-- tauceti_worker/quota.py: a point that the operator gave is on the curve.
use tau_ceti_worker.Prelude.{
  ℕ, arith, ◌≡◌, Option, none, some, List, [], ◌∷◌, ◌++◌, ◌∙◌, Dict, lookup, lookup-insert, nat_eq,
  beq_refl,
}
use tau_ceti_worker.Prelude.{subst}
use tau_ceti_worker.Prelude.Int.{pos, negsuc}
use tau_ceti_worker.Pace.Curve.{
  Curve, Token, blank, faulty, pair, Parsed, failed, parsed, hundred, put_point, read_pair,
  read_token, read_points, set_default, complete_curve, parse_pace_curve,
}
use tau_ceti_worker.Pace.Sorted.{points}
use tau_ceti_worker.Pace.Parsing.{
  If, IsDict, bind-If, read_points-IsDict, lookup-set_default, with_endpoints,
  with_endpoints-IsSorted,
}

abbrev pub Holds : ℕ → ℕ → Dict ℕ ℕ → Type 0
Holds t b d = lookup t d ≡ some b

put_point-Holds :
    (t b s a : ℕ) (d : Dict ℕ ℕ) → Holds t b d → If (Holds t b) (put_point s a d (lookup s d))
unfolding put_point
put_point-Holds t b s a d h = ground (arith, lookup-insert t s a d)

read_token-Holds :
    (t b : ℕ) (k : Token) (d : Dict ℕ ℕ) → Holds t b d → If (Holds t b) (read_token k d)
unfolding read_token read_pair
read_token-Holds t b blank d h = h
read_token-Holds t b (faulty e) d h = tt
read_token-Holds t b (pair (negsuc s) a) d h = tt
read_token-Holds t b (pair (pos s) (negsuc a)) d h = ground arith
read_token-Holds t b (pair (pos s) (pos a)) d h = ground (arith, put_point-Holds t b s a d h)

put_point-given : (t b : ℕ) (d : Dict ℕ ℕ) (o : Option ℕ) → If (Holds t b) (put_point t b d o)
unfolding put_point
put_point-given t b d none = ground (arith, lookup-insert t t b d, beq_refl t)
put_point-given t b d (some c) = ground (arith, lookup-insert t t b d, beq_refl t)

read_token-given : (t b : ℕ) (d : Dict ℕ ℕ) → If (Holds t b) (read_token (pair (pos t) (pos b)) d)
unfolding read_token read_pair
read_token-given t b d = ground (arith, put_point-given t b d (lookup t d))

read_points-Holds :
    (t b : ℕ) (ks : List Token) (d : Dict ℕ ℕ) → Holds t b d → If (Holds t b) (read_points ks d)
unfolding read_points
read_points-Holds t b [] d h = h
read_points-Holds t b (k ∷ ks) d h =
    bind-If (Holds t b) (Holds t b) (read_token k d) (read_points ks) (read_token-Holds t b k d h)
      (read_points-Holds t b ks)

If-Unit : (x : Parsed (Dict ℕ ℕ)) → If (λ d. Unit {0}) x
If-Unit (failed e) = tt
If-Unit (parsed d) = tt

read_points-given :
    (t b : ℕ) (js ks : List Token) (d : Dict ℕ ℕ)
    → If (Holds t b) (read_points (js ++ pair (pos t) (pos b) ∷ ks) d)
unfolding read_points
read_points-given t b [] ks d =
    bind-If (Holds t b) (Holds t b) (read_token (pair (pos t) (pos b)) d) (read_points ks)
      (read_token-given t b d) (read_points-Holds t b ks)
read_points-given t b (j ∷ js) ks d =
    bind-If (λ d. Unit {0}) (Holds t b) (read_token j d)
      (read_points (js ++ pair (pos t) (pos b) ∷ ks)) (If-Unit (read_token j d))
      (λ e u. read_points-given t b js ks e)

abbrev pub IsOn : ℕ → ℕ → Curve → Type 0
IsOn t b c = lookup t (points c) ≡ some b

-- What the dictionary holds is on the curve.
complete_curve-IsOn :
    (t b : ℕ) (ks : List Token) (d : Dict ℕ ℕ)
    → IsDict d × Holds t b d
    → If (IsOn t b) (complete_curve ks d)
unfolding complete_curve lookup
complete_curve-IsOn t b ks [] (i, h) = ground arith
complete_curve-IsOn t b ks (p ∷ ps) (i, h) = (with_endpoints-IsSorted (p ∷ ps) i).same t ∙ last
  where
    last : Holds t b (with_endpoints (p ∷ ps))
    last =
        lookup-set_default t hundred hundred (set_default 0 0 (p ∷ ps)) b
          (lookup-set_default t 0 0 (p ∷ ps) b h)

If-both :
    (P Q : Dict ℕ ℕ → Type 0) (x : Parsed (Dict ℕ ℕ)) → If P x → If Q x → If (λ d. P d × Q d) x
If-both P Q (failed e) h k = tt
If-both P Q (parsed d) h k = (h, k)

abbrev spec : List Token → ℕ → ℕ → List Token → List Token
spec js t b ks = js ++ pair (pos t) (pos b) ∷ ks

parse-If : (t b : ℕ) (js ks : List Token) → If (IsOn t b) (parse_pace_curve (spec js t b ks))
unfolding parse_pace_curve
parse-If t b js ks =
    bind-If (λ d. IsDict d × Holds t b d) (IsOn t b) (read_points (spec js t b ks) [])
      (complete_curve (spec js t b ks))
      (If-both IsDict (Holds t b) (read_points (spec js t b ks) [])
        (read_points-IsDict (spec js t b ks) [] (tt, tt)) (read_points-given t b js ks []))
      (complete_curve-IsOn t b (spec js t b ks))

-- If a specification parses, each point that it gives is on the curve, wherever it stands in it.
pub parse_pace_curve-given :
    (js ks : List Token) (t b : ℕ) (c : Curve)
    → parse_pace_curve (js ++ pair (pos t) (pos b) ∷ ks) ≡ parsed c
    → lookup t (points c) ≡ some b
parse_pace_curve-given js ks t b c h = subst (If (IsOn t b)) h (parse-If t b js ks)
