-- ===== src/Budget/Books/Clamped.antt =====
-- tauceti_worker/budget.py, `settle_receipt`: the corrections of earlier estimates are of different
-- sessions, and start from the costs that these have.
use tau_ceti_worker.Budget.Books.Adjusts.{
  Adjusts, DistinctIds, Apart, Filed, All-map, All-zip, filter-All, filter-DistinctIds,
  append-DistinctIds, append-Adjusts,
}
use tau_ceti_worker.Budget.Corrected.{
  All-append, clamps_above, clamps_stuck, clamps_below, clamp-eq_some,
}
use tau_ceti_worker.Budget.Cumulative.{
  clamps, clamp, spread, contains, same_keys, amount_in, estimates_for, exact_for, estimates_of,
  priors_of, sum,
}
use tau_ceti_worker.Budget.Estimate.{cost_of}
use tau_ceti_worker.Budget.Replay.Keyed.{All}
use tau_ceti_worker.Budget.State.{Event, Session, State}
use tau_ceti_worker.Prelude.{
  any, all, map, ◌++◌, ◌==◌, not, String, string_eq, Bool-cases, true, false, Option-cases, List,
  [], ◌∷◌, Dict, keys, insert, eq_iff, beq_refl, ◌≡◌, inl, inr, refl, arith, subst, sym,
}
use tau_ceti_worker.Prelude.Int.{ℤ, ltb_ℤ}

-- The keys of a map, each once.
abbrev pub DistinctKeys : Dict String ℤ → Type 0
DistinctKeys [] = Unit
DistinctKeys ((k, v) ∷ d) = (contains k (keys d) ≡ false) × DistinctKeys d

spread-Adjusts :
    (k : String) (native exact weight : ℤ) (ps : List Session) (cursor : ℤ)
    → Adjusts ps (spread k native exact weight cursor ps).1
unfolding spread
spread-Adjusts k native exact weight [] cursor = tt
spread-Adjusts k native exact weight (p ∷ []) cursor = (refl, refl, tt)
spread-Adjusts k native exact weight (p ∷ q ∷ ps) cursor =
    (refl, refl, spread-Adjusts k native exact weight (q ∷ ps) _)

-- A session that counts in one provider alone, which is among those of the map.
abbrev pub CountsIn : Dict String ℤ → Session → Type 0
CountsIn totals p =
    (k : String) × (contains k (keys totals) ≡ true) × (same_keys (keys p.totals) (k ∷ []) ≡ true)

all_single :
    (k : String) (ps : List Session)
    → any (λ p. not (same_keys (keys p.totals) (k ∷ []))) ps ≡ false
    → All (λ p. same_keys (keys p.totals) (k ∷ []) ≡ true) ps
all_single k [] h = tt
all_single k (p ∷ ps) h = elim (Bool-cases (same_keys (keys p.totals) (k ∷ []))) [
  | inl same ↦ (same, all_single k ps (rw same at h))
  | inr other ↦ absurd (cc (rw other at h))
]

-- Two providers that the same keys consist of are one.
one_key :
    (k j : String) (ks : List String)
    → same_keys ks (k ∷ []) ≡ true
    → same_keys ks (j ∷ []) ≡ true
    → (k == j) ≡ true
one_key k j [] h g = absurd (cc)
one_key k j (i ∷ ks) h g =
    ground (arith, eq_iff i k, eq_iff i j, eq_iff k i, eq_iff j i, eq_iff k j)

-- What is claimed of the sessions before a receipt, which are filed.
pub record Clamped (P : Session → Type 0) (st : State) (totals : Dict String ℤ) (es : List Event)
    : Type 1 where
  pub of : List Session
  pub claimed : All P of
  pub filed : All (Filed st) of
  pub distinct : DistinctIds of
  pub counted : All (CountsIn totals) of
  pub adjusts : Adjusts of es

counts_later :
    (k : String) (native : ℤ) (totals : Dict String ℤ) (p : Session)
    → CountsIn totals p
    → CountsIn ((k, native) ∷ totals) p
counts_later k native totals p (j, among, single) = (j, ground arith, single)

-- Sessions that count in different providers are different sessions.
apart_counted :
    (st : State) (k : String) (totals : Dict String ℤ) (p q : Session)
    → contains k (keys totals) ≡ false
    → Filed st p
    → same_keys (keys p.totals) (k ∷ []) ≡ true
    → Filed st q
    → CountsIn totals q
    → (q.id == p.id) ≡ false
apart_counted st k totals p q fresh filed single filed' (j, among, single') =
    elim (Bool-cases (q.id == p.id)) [
      | inr other ↦ other
      | inl same ↦
          let one = one_key k j (keys q.totals) (rw (← p_is_q same) single) single' in
          absurd (ground (arith, eq_iff k j))
    ]
  where
    p_is_q : (q.id == p.id) ≡ true → p ≡ q
    p_is_q same = ground (arith, eq_iff q.id p.id)

module _ (P : Session → Type 0) (st : State) where
  estimates-All :
      (Q : Session → Type 0) (k : String) (priors : List Session)
      → All Q priors
      → All Q (estimates_for k priors)
  unfolding estimates_of priors_of
  estimates-All Q k priors all = filter-All Q _ _ (filter-All Q _ priors all)

  estimates-DistinctIds :
      (k : String) (priors : List Session)
      → DistinctIds priors
      → DistinctIds (estimates_for k priors)
  unfolding estimates_of priors_of
  estimates-DistinctIds k priors d = filter-DistinctIds _ _ (filter-DistinctIds _ priors d)

  all_counted :
      (k : String) (native : ℤ) (totals : Dict String ℤ) (ps : List Session)
      → All (λ p. same_keys (keys p.totals) (k ∷ []) ≡ true) ps
      → All (CountsIn ((k, native) ∷ totals)) ps
  all_counted k native totals ps single =
      All-map (λ p. same_keys (keys p.totals) (k ∷ []) ≡ true) (CountsIn ((k, native) ∷ totals)) ps
        (λ p one. (k, ground (arith, beq_refl k), one)) single

  -- The corrections for one provider, before those of the providers after it.
  joined :
      (k : String) (native : ℤ) (totals : Dict String ℤ) (ps : List Session) (es fs : List Event)
      → contains k (keys totals) ≡ false
      → All P ps
      → All (Filed st) ps
      → DistinctIds ps
      → All (λ p. same_keys (keys p.totals) (k ∷ []) ≡ true) ps
      → Adjusts ps es
      → Clamped P st totals fs
      → Clamped P st ((k, native) ∷ totals) (es ++ fs)
  joined k native totals ps es fs fresh claimed filed distinct single adjusts c = record {
    of = ps ++ c.of;
    claimed = All-append P ps c.of claimed c.claimed;
    filed = All-append (Filed st) ps c.of filed c.filed;
    distinct = append-DistinctIds ps c.of distinct c.distinct (
        All-zip (Filed st) (λ p. same_keys (keys p.totals) (k ∷ []) ≡ true) (λ p. Apart p.id c.of)
          ps
          (λ p here one.
            All-zip (Filed st) (CountsIn totals) (λ q. (q.id == p.id) ≡ false) c.of
              (λ q there counted. apart_counted st k totals p q fresh here one there counted)
              c.filed c.counted)
          filed single);
    counted =
        All-append (CountsIn ((k, native) ∷ totals)) ps c.of (all_counted k native totals ps single)
          (All-map (CountsIn totals) (CountsIn ((k, native) ∷ totals)) c.of
            (counts_later k native totals) c.counted);
    adjusts = append-Adjusts ps c.of es fs adjusts c.adjusts;
  }

  nothing : (totals : Dict String ℤ) → Clamped P st totals []
  nothing totals = record {
    of = [];
    claimed = tt;
    filed = tt;
    distinct = tt;
    counted = tt;
    adjusts = tt;
  }

  later_provider :
      (k : String) (native : ℤ) (totals : Dict String ℤ) (es : List Event)
      → Clamped P st totals es
      → Clamped P st ((k, native) ∷ totals) es
  later_provider k native totals es c = record {
    of = c.of;
    claimed = c.claimed;
    filed = c.filed;
    distinct = c.distinct;
    adjusts = c.adjusts;
    counted =
        All-map (CountsIn totals) (CountsIn ((k, native) ∷ totals)) c.of
          (counts_later k native totals) c.counted;
  }

  pub clamps-Clamped :
      (priors : List Session)
      → All P priors
      → All (Filed st) priors
      → DistinctIds priors
      → (totals baseline : Dict String ℤ) → DistinctKeys totals
      → Clamped P st totals (clamps priors baseline totals).1
  unfolding clamps
  clamps-Clamped priors claimed filed distinct [] baseline single = nothing []
  clamps-Clamped priors claimed filed distinct ((k, native) ∷ totals) baseline (fresh, single) =
      elim (Bool-cases (ltb_ℤ native (amount_in k baseline))) [
        | inr above ↦
            subst (λ c. Clamped P st ((k, native) ∷ totals) c.1)
              (sym (clamps_above priors baseline totals k native above))
              (later_provider k native totals _
                (clamps-Clamped priors claimed filed distinct totals baseline single))
        | inl below ↦ elim (Option-cases (clamp k native priors)) [
          | inl stuck ↦
              subst (λ c. Clamped P st ((k, native) ∷ totals) c.1)
                (sym (clamps_stuck priors baseline totals k native below stuck))
                (nothing ((k, native) ∷ totals))
          | inr ((cursor, events), e) ↦
              let (free, spread_is) = clamp-eq_some k native priors (cursor, events) e in
              subst (λ es. Clamped P st ((k, native) ∷ totals) es)
                (sym (clamps_below priors baseline totals k native cursor events below e))
                (joined k native totals (estimates_for k priors) events _ fresh
                  (estimates-All P k priors claimed) (estimates-All (Filed st) k priors filed)
                  (estimates-DistinctIds k priors distinct)
                  (all_single k (estimates_for k priors) (ground arith))
                  (subst (λ f. Adjusts (estimates_for k priors) f.1) spread_is
                    (spread-Adjusts k native (exact_for k priors)
                      (sum (map cost_of (estimates_for k priors))) (estimates_for k priors)
                      (exact_for k priors)))
                  (clamps-Clamped priors claimed filed distinct totals (insert k cursor baseline)
                    single))
        ]
      ]
