-- ===== src/Pace/Sorted.antt =====
-- tauceti_worker/quota.py: the curve that a specification is parsed to.
use tau_ceti_worker.Prelude.{
  ℕ, ◌≤◌, ◌<◌, arith, ◌≡◌, refl, none, some, List, [], ◌∷◌, ap, ◌∙◌, Dict, lookup, insert,
  lookup-insert, nat_eq, ◌==◌, if◌then◌else◌,
}
use tau_ceti_worker.Pace.Curve.{Curve, Point, place, place_in, sort_from, hundred}

-- Times strictly ascend from the point on.
abbrev pub Ascending : Point → List Point → Type 0
Ascending p [] = Unit
Ascending p (q ∷ qs) = (p.0 < q.0) × Ascending q qs

abbrev pub Distinct : Dict ℕ ℕ → Type 0
Distinct [] = Unit
Distinct ((t, b) ∷ d) = (lookup t d ≡ none) × Distinct d

abbrev pub Within : Dict ℕ ℕ → Type 0
Within [] = Unit
Within ((t, b) ∷ d) = (t ≤ hundred) × Within d

abbrev pub points : Curve → Dict ℕ ℕ
points c = c.first ∷ c.rest

lookup-place :
    (k : ℕ) (p : Point) (qs : List Point)
    → lookup p.0 qs ≡ none
    → lookup k (place p qs) ≡ (if k == p.0 then some p.1 else lookup k qs)
unfolding place lookup
lookup-place k p [] h = ground arith
lookup-place k p (q ∷ qs) h = ground (arith, lookup-place k p qs)

lookup-place_in :
    (k : ℕ) (p : Point) (c : Curve)
    → lookup p.0 (points c) ≡ none
    → lookup k (points (place_in p c)) ≡ (if k == p.0 then some p.1 else lookup k (points c))
unfolding place_in lookup
lookup-place_in k p c h = ground (arith, lookup-place k p c.rest)

lookup-sort_from :
    (k : ℕ) (p : Point) (qs : List Point)
    → Distinct (p ∷ qs)
    → lookup k (points (sort_from p qs)) ≡ lookup k (p ∷ qs)
unfolding sort_from lookup
lookup-sort_from k p [] h = ground arith
lookup-sort_from k p (q ∷ qs) h =
    lookup-place_in k p (sort_from q qs) (lookup-sort_from p.0 q qs h.1 ∙ h.0)
    ∙ ap (λ o. if k == p.0 then some p.1 else o) (lookup-sort_from k q qs h.1)

-- A point goes where its time belongs.
Ascending-place :
    (o p : Point) (qs : List Point)
    → Ascending o qs
    → o.0 < p.0
    → lookup p.0 qs ≡ none
    → Ascending o (place p qs)
unfolding place lookup
Ascending-place o p [] a h n = (h, tt)
Ascending-place o p (q ∷ qs) a h n = ground (arith, Ascending-place q p qs)

IsAscending : Curve → Type 0
IsAscending c = Ascending c.first c.rest

place_in-IsAscending :
    (p : Point) (c : Curve)
    → IsAscending c
    → lookup p.0 (points c) ≡ none
    → IsAscending (place_in p c)
unfolding IsAscending place_in lookup
place_in-IsAscending p c a n = ground (arith, Ascending-place c.first p c.rest a)

sort_from-IsAscending :
    (p : Point) (qs : List Point) → Distinct (p ∷ qs) → IsAscending (sort_from p qs)
unfolding IsAscending sort_from
sort_from-IsAscending p [] h = tt
sort_from-IsAscending p (q ∷ qs) h =
    place_in-IsAscending p (sort_from q qs) (sort_from-IsAscending q qs h.1)
      (lookup-sort_from p.0 q qs h.1 ∙ h.0)

-- Before its first time an ascending list holds nothing.
pub lookup-before :
    (k : ℕ) (p : Point) (qs : List Point) → Ascending p qs → k < p.0 → lookup k (p ∷ qs) ≡ none
unfolding lookup
lookup-before k p [] a h = ground arith
lookup-before k p (q ∷ qs) a h = ground (arith, lookup-before k q qs a.1)

-- The dictionaries that parsing builds.
pub insert-Distinct : (k v : ℕ) (d : Dict ℕ ℕ) → Distinct d → Distinct (insert k v d)
unfolding insert lookup
insert-Distinct k v [] h = (refl, tt)
insert-Distinct k v ((j, w) ∷ d) h =
    ground (arith, insert-Distinct k v d h.1, lookup-insert j k v d)

pub insert-Within : (k v : ℕ) (d : Dict ℕ ℕ) → Within d → k ≤ hundred → Within (insert k v d)
unfolding insert
insert-Within k v [] h l = (l, tt)
insert-Within k v ((j, w) ∷ d) h l = ground (arith, insert-Within k v d h.1 l)

Within-place : (p : Point) (qs : List Point) → p.0 ≤ hundred → Within qs → Within (place p qs)
unfolding place
Within-place p [] l h = (l, tt)
Within-place p (q ∷ qs) l h = ground (arith, Within-place p qs l h.1)

place_in-Within :
    (p : Point) (c : Curve) → p.0 ≤ hundred → Within (points c) → Within (points (place_in p c))
unfolding place_in
place_in-Within p c l h = ground (arith, Within-place p c.rest l h.1)

sort_from-Within :
    (p : Point) (qs : List Point) → Within (p ∷ qs) → Within (points (sort_from p qs))
unfolding sort_from
sort_from-Within p [] h = h
sort_from-Within p (q ∷ qs) h = place_in-Within p (sort_from q qs) h.0 (sort_from-Within q qs h.1)

-- What a curve over a dictionary is.
pub record IsSorted (d : Dict ℕ ℕ) (c : Curve) : Type 0 where
  pub ascending : Ascending c.first c.rest
  pub within : Within (points c)
  pub same : (k : ℕ) → lookup k (points c) ≡ lookup k d

pub sort_from-IsSorted :
    (p : Point) (qs : List Point)
    → Distinct (p ∷ qs)
    → Within (p ∷ qs)
    → IsSorted (p ∷ qs) (sort_from p qs)
unfolding IsAscending
sort_from-IsSorted p qs h w = record {
  ascending = sort_from-IsAscending p qs h;
  within = sort_from-Within p qs w;
  same = λ k. lookup-sort_from k p qs h;
}
