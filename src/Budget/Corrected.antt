-- ===== src/Budget/Corrected.antt =====
-- tauceti_worker/budget.py, `settle_receipt`: what its corrections leave of the sessions.
use tau_ceti_worker.Budget.Ledger.{update_session, apply, apply_all, amend}
use tau_ceti_worker.Budget.Settlement.{no_amendment}
use tau_ceti_worker.Budget.Cumulative.{
  is_estimate, same_keys, rebase, successors, spread, cannot_clamp, exact_for, estimates_for, sum,
  constrained, clamps, clamp, amount_in,
}
use tau_ceti_worker.Budget.Estimate.{cost_of}
use tau_ceti_worker.Budget.State.{Result-cases, ok-injective, ok, Amendment, State, Event, Session}
use tau_ceti_worker.Budget.Replay.Keyed.{update_session-eq_ok, All}
use tau_ceti_worker.Prelude.{
  keys, ◌⊎◌, eq_iff, arith, sym, ◌∙◌, ℕ, lookup-insert, ◌==◌, subst, map, Option-cases, inl, inr,
  lookup, insert, Bool-cases, some, Bool, ◌++◌, String, string_eq, true, false, none, List, [], ◌∷◌,
  Dict, ◌≡◌,
}
use tau_ceti_worker.Prelude.Int.{pos, ◌-ℤ◌, ℤ, ◌+ℤ◌, ltb_ℤ}

pub All-append {ℓ κ} :
    {A : Type ℓ} (P : A → Type κ) (xs ys : List A) → All P xs → All P ys → All P (xs ++ ys)
All-append P [] ys p q = q
All-append P (x ∷ xs) ys (p, ps) q = (p, All-append P xs ys ps q)

pub some_injective {ℓ} : {A : Type ℓ} (a b : A) → some a ≡ some b → a ≡ b
some_injective a b h = cc

-- The three ways on in the loop over the totals.
pub clamps_above :
    (priors : List Session) (baseline totals : Dict String ℤ) (k : String) (native : ℤ)
    → ltb_ℤ native (amount_in k baseline) ≡ false
    → clamps priors baseline ((k, native) ∷ totals) ≡ clamps priors baseline totals
unfolding clamps
clamps_above priors baseline totals k native h = rw (clamps, h)

pub clamps_stuck :
    (priors : List Session) (baseline totals : Dict String ℤ) (k : String) (native : ℤ)
    → ltb_ℤ native (amount_in k baseline) ≡ true
    → clamp k native priors ≡ none
    → clamps priors baseline ((k, native) ∷ totals) ≡ (baseline, [])
unfolding clamps
clamps_stuck priors baseline totals k native h e = rw (clamps, h, e)

pub clamps_below :
    (priors : List Session) (baseline totals : Dict String ℤ) (k : String) (native cursor : ℤ)
    (events : List Event)
    → ltb_ℤ native (amount_in k baseline) ≡ true
    → clamp k native priors ≡ some (cursor, events)
    → (clamps priors baseline ((k, native) ∷ totals)).1
      ≡ events ++ (clamps priors (insert k cursor baseline) totals).1
unfolding clamps
clamps_below priors baseline totals k native cursor events h e = rw (clamps, h, e)

-- The estimates are lowered only where each counts for this provider alone.
pub clamp-eq_some :
    (k : String) (native : ℤ) (priors : List Session) (found : ℤ × List Event)
    → clamp k native priors ≡ some found
    → (cannot_clamp k native (exact_for k priors) (estimates_for k priors) ≡ false)
      × (spread k native
            (exact_for k priors)
            (sum (map cost_of (estimates_for k priors)))
            (exact_for k priors)
            (estimates_for k priors)
          ≡ found)
unfolding clamp
clamp-eq_some k native priors found h =
    elim (Bool-cases (cannot_clamp k native (exact_for k priors) (estimates_for k priors))) [
      | inl stuck ↦ absurd (cc (rw stuck at h))
      | inr free ↦ (free, some_injective _ found (rw free at h))
    ]

-- A claim on every correction that lowers an earlier estimate.
module _ (Q : Event → Type 0)
    (each : (k : String) (p : Session) (v c : ℤ) → Q (constrained k p v c)) where
  spread-All :
      (k : String) (native exact weight : ℤ) (ps : List Session) (cursor : ℤ)
      → All Q (spread k native exact weight cursor ps).1
  unfolding spread
  spread-All k native exact weight [] cursor = tt
  spread-All k native exact weight (p ∷ []) cursor = (each k p _ _, tt)
  spread-All k native exact weight (p ∷ q ∷ ps) cursor =
      (each k p _ _, spread-All k native exact weight (q ∷ ps) _)

  clamp-All :
      (k : String) (native cursor : ℤ) (priors : List Session) (events : List Event)
      → clamp k native priors ≡ some (cursor, events)
      → All Q events
  clamp-All k native cursor priors events h =
      subst (λ f. All Q f.1) (clamp-eq_some k native priors (cursor, events) h).1
        (spread-All k native _ _ (estimates_for k priors) _)

  pub clamps-All :
      (priors : List Session) (totals baseline : Dict String ℤ)
      → All Q (clamps priors baseline totals).1
  unfolding clamps
  clamps-All priors [] baseline = tt
  clamps-All priors ((k, native) ∷ totals) baseline =
      elim (Bool-cases (ltb_ℤ native (amount_in k baseline))) [
        | inr above ↦
            rw (clamps_above priors baseline totals k native above)
              (clamps-All priors totals baseline)
        | inl below ↦ elim (Option-cases (clamp k native priors)) [
          | inl stuck ↦ rw (clamps_stuck priors baseline totals k native below stuck) tt
          | inr ((cursor, events), e) ↦
              rw (clamps_below priors baseline totals k native cursor events below e) (
                All-append Q events _ (clamp-All k native cursor priors events e)
                  (clamps-All priors totals (insert k cursor baseline)))
        ]
      ]

-- The two ways on in the loop over the sessions after a late receipt.
pub successors-eq_ok :
    (totals : Dict String ℤ) (delta : ℤ) (p : Session) (ps : List Session) (later : List Event)
    → successors totals delta (p ∷ ps) ≡ ok later
    → ((is_estimate p.cost_provenance ≡ true)
        × (rest : List Event) × (successors totals delta ps ≡ ok rest)
        × (rebase delta p ∷ rest ≡ later))
      ⊎ ((is_estimate p.cost_provenance ≡ false)
          × (Event.correction p.id delta (cost_of p -ℤ delta) no_amendment ∷ [] ≡ later))
unfolding successors
successors-eq_ok totals delta p ps later h =
    elim (Bool-cases (same_keys (keys totals) (keys p.totals))) [
      | inr mixed ↦ absurd (cc (rw mixed at h))
      | inl same ↦ elim (Bool-cases (is_estimate p.cost_provenance)) [
        | inl estimated ↦ elim (Result-cases (successors totals delta ps)) [
          | inl (rest, e) ↦
              inl (estimated, rest, e, ok-injective _ later (rw (same, estimated, e) at h))
          | inr (why, e) ↦ absurd (cc (rw (same, estimated, e) at h))
        ]
        | inr exact ↦ elim (Bool-cases (ltb_ℤ (cost_of p -ℤ delta) (pos 0))) [
          | inl below ↦ absurd (cc (rw (same, exact, below) at h))
          | inr above ↦ inr (exact, ok-injective _ later (rw (same, exact, above) at h))
        ]
      ]
    ]

-- Events that keep what is true of a session, whichever sessions they correct.
abbrev pub Keeps : (Session → Bool) → Event → Type 0
Keeps P (Event.correction id delta cost a) = (x : Session) → P x ≡ true → P (amend x cost a) ≡ true
Keeps P _ = ⊥

abbrev pub Holds : (Session → Bool) → String → State → Type 0
Holds P id st = (x : Session) × (lookup id st.sessions ≡ some x) × (P x ≡ true)

amend-Holds :
    (P : Session → Bool) (id k : String) (x y : Session) (cost : ℤ) (a : Amendment)
    (d : Dict String Session)
    → ((z : Session) → P z ≡ true → P (amend z cost a) ≡ true)
    → lookup k d ≡ some y
    → lookup id d ≡ some x
    → P x ≡ true
    → (z : Session) × (lookup id (insert k (amend y cost a) d) ≡ some z) × (P z ≡ true)
amend-Holds P id k x y cost a d keep found' found holds = elim (Bool-cases (id == k)) [
  | inl same ↦ (
    amend y cost a,
    lookup-insert id k (amend y cost a) d ∙ rw same,
    keep y (ground (arith, eq_iff id k)),
  )
  | inr other ↦ (x, lookup-insert id k (amend y cost a) d ∙ rw other found, holds)
]

pub apply_all-Holds :
    (P : Session → Bool) (t : ℕ) (id : String) (st st' : State) (es : List Event)
    → All (Keeps P) es
    → apply_all t st es ≡ ok st'
    → Holds P id st
    → Holds P id st'
unfolding apply_all apply
apply_all-Holds P t id st st' [] keep h held =
    subst (λ s. Holds P id s) (ok-injective st st' h) held
apply_all-Holds P t id st st' (Event.correction k delta cost a ∷ es) (keep, keeps) h
      (x, found, holds) =
    elim (Result-cases (update_session moved k (λ s. amend s cost a))) [
      | inl (mid, p) ↦
          let (y, found', e) = update_session-eq_ok moved mid k (λ s. amend s cost a) p in
          apply_all-Holds P t id mid st' es keeps (rw p at h) (
            subst (λ s. Holds P id s) (sym e)
              (amend-Holds P id k x y cost a st.sessions keep found' found holds))
      | inr (why, p) ↦ absurd (cc (rw p at h))
    ]
  where
    moved : State
    moved = record st { balance = st.balance +ℤ delta; spent = st.spent -ℤ delta }
apply_all-Holds P t id st st' (e ∷ es) keep h held = absurd (keep.0)
