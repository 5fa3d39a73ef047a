-- ===== src/Budget/Books/Provider.antt =====
-- tauceti_worker/budget.py: `settle_receipt` keeps the ledger readable and its books right.
use tau_ceti_worker.Budget.Books.Adjusts.{Adjusts, DistinctIds, Apart}
use tau_ceti_worker.Budget.Corrected.{successors-eq_ok}
use tau_ceti_worker.Budget.Cumulative.{successors, earlier, after}
use tau_ceti_worker.Budget.Estimate.{cost_of}
use tau_ceti_worker.Budget.Replay.Keyed.{All}
use tau_ceti_worker.Budget.State.{Event, Session, ok, ok-injective}
use tau_ceti_worker.Prelude.{
  ◌==◌, String, string_eq, Bool-cases, false, List, [], ◌∷◌, Dict, eq_iff, ◌≡◌, inl, inr, refl,
  arith, subst,
}
use tau_ceti_worker.Prelude.Int.{ℤ, ◌-ℤ◌, pos, int_laws}

-- A part of a list of sessions, in any claim that holds throughout.
pub record Part (ps qs : List Session) : Type 1 where
  pub claims : (P : Session → Type 0) → All P qs → All P ps
  pub distinct : DistinctIds qs → DistinctIds ps

nothing_of : (qs : List Session) → Part [] qs
nothing_of qs = record { claims = λ P all. tt; distinct = λ d. tt }

no_change : (c : ℤ) → pos 0 ≡ c -ℤ c
no_change c = omega int_laws

step_down : (c delta : ℤ) → delta ≡ c -ℤ (c -ℤ delta)
step_down c delta = omega int_laws

pub successors-Adjusts :
    (totals : Dict String ℤ) (delta : ℤ) (ps : List Session) (events : List Event)
    → successors totals delta ps ≡ ok events
    → (qs : List Session) × Part qs ps × Adjusts qs events
unfolding successors
successors-Adjusts totals delta [] events h =
    ([], nothing_of [], subst (λ es. Adjusts [] es) (ok-injective [] events h) tt)
successors-Adjusts totals delta (p ∷ ps) events h =
    elim (successors-eq_ok totals delta p ps events h) [
      | inl (_, rest, e, line) ↦
          let (qs, part, adjusts) = successors-Adjusts totals delta ps rest e in
          (
            p ∷ qs,
            record {
              claims = λ P all. (all.0, part.claims P all.1);
              distinct = λ d. (part.claims (λ q. (q.id == p.id) ≡ false) d.0, part.distinct d.1);
            },
            subst (λ es. Adjusts (p ∷ qs) es) line (refl, no_change (cost_of p), adjusts),
          )
      | inr (_, line) ↦ (
        p ∷ [],
        record { claims = λ P all. (all.0, tt); distinct = λ d. (tt, tt) },
        subst (λ es. Adjusts (p ∷ []) es) line (refl, step_down (cost_of p) delta, tt),
      )
    ]

-- The sessions before and after an invocation, in a list of different ones.
pub earlier-Apart : (id : String) (ps : List Session) → Apart id (earlier id ps)
unfolding earlier
earlier-Apart id [] = tt
earlier-Apart id (p ∷ ps) = elim (Bool-cases (p.id == id)) [
  | inl here ↦ rw here tt
  | inr there ↦ rw there (there, earlier-Apart id ps)
]

pub earlier-Part : (id : String) (ps : List Session) → Part (earlier id ps) ps
unfolding earlier
earlier-Part id [] = nothing_of []
earlier-Part id (p ∷ ps) = elim (Bool-cases (p.id == id)) [
  | inl here ↦ rw here (nothing_of (p ∷ ps))
  | inr there ↦
      let part = earlier-Part id ps in
      rw there (record {
        claims = λ P all. (all.0, part.claims P all.1);
        distinct = λ d. (part.claims (λ q. (q.id == p.id) ≡ false) d.0, part.distinct d.1);
      })
]

pub after-Part : (id : String) (ps : List Session) → Part (after id ps) ps
unfolding after
after-Part id [] = nothing_of []
after-Part id (p ∷ ps) = elim (Bool-cases (p.id == id)) [
  | inl here ↦ rw here (record { claims = λ P all. all.1; distinct = λ d. d.1 })
  | inr there ↦
      let part = after-Part id ps in
      rw there (record { claims = λ P all. part.claims P all.1; distinct = λ d. part.distinct d.1 })
]

pub after-Apart : (id : String) (ps : List Session) → DistinctIds ps → Apart id (after id ps)
unfolding after
after-Apart id [] d = tt
after-Apart id (p ∷ ps) (apart, d) = elim (Bool-cases (p.id == id)) [
  | inl here ↦ rw here (subst (λ j. Apart j ps) (ground (arith, eq_iff p.id id)) apart)
  | inr there ↦ rw there (after-Apart id ps d)
]

pub crossing :
    (id : String) (ps : List Session)
    → DistinctIds ps
    → All (λ p. Apart p.id (after id ps)) (earlier id ps)
unfolding earlier after
crossing id [] d = tt
crossing id (p ∷ ps) (apart, d) = elim (Bool-cases (p.id == id)) [
  | inl here ↦ rw here tt
  | inr there ↦
      rw there ((after-Part id ps).claims (λ q. (q.id == p.id) ≡ false) apart, crossing id ps d)
]
