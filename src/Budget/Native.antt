-- ===== src/Budget/Native.antt =====
-- tauceti_worker/budget.py, `settle_receipt`: a line that charges a receipt leaves its invocation
-- settled by the provider's own account.
use tau_ceti_worker.Budget.Booking.{native_events, settle_native, correct_native, is_native}
use tau_ceti_worker.Budget.Corrected.{successors-eq_ok, Keeps, Holds, apply_all-Holds, clamps-All}
use tau_ceti_worker.Budget.Cumulative.{
  clamps, constrained, successors, later_of, after, is_estimate,
}
use tau_ceti_worker.Budget.Estimate.{is_settled, cost_of}
use tau_ceti_worker.Budget.Evidence.{Receipt}
use tau_ceti_worker.Budget.Ledger.{apply, apply_all, amend, settle_session, update_session}
use tau_ceti_worker.Budget.Replay.Append.{apply_all-append}
use tau_ceti_worker.Budget.Replay.Keyed.{All, update_session-eq_ok}
use tau_ceti_worker.Budget.Settlement.{no_amendment}
use tau_ceti_worker.Budget.State.{
  Amendment, Event, Session, State, Settlement, Result-cases, ok, ok-injective,
}
use tau_ceti_worker.Prelude.{
  sym, ◌++◌, ℕ, String, string_eq, Bool, Bool-cases, Option, some, List, [], ◌∷◌, Dict, lookup,
  lookup-insert, beq_refl, ◌≡◌, inl, inr, refl, arith, ◌∙◌, subst,
}
use tau_ceti_worker.Prelude.Int.{ℤ, ◌+ℤ◌, ◌-ℤ◌}

abbrev is_settled_of : Session → Bool
is_settled_of x = is_settled x.status

successors-Keeps :
    (totals : Dict String ℤ) (delta : ℤ) (ps : List Session) (later : List Event)
    → successors totals delta ps ≡ ok later
    → All (Keeps is_native) later
unfolding successors amend
successors-Keeps totals delta [] later h =
    subst (λ es. All (Keeps is_native) es) (ok-injective [] later h) tt
successors-Keeps totals delta (p ∷ ps) later h = elim (successors-eq_ok totals delta p ps later h) [
  | inl (_, rest, e, line) ↦
      subst (λ es. All (Keeps is_native) es) line
        ((λ x n. n), successors-Keeps totals delta ps rest e)
  | inr (_, line) ↦ subst (λ es. All (Keeps is_native) es) line ((λ x n. n), tt)
]

-- The line in two parts, with the state between them.
pub apply_all-parts :
    (t : ℕ) (st st' : State) (xs ys : List Event)
    → apply_all t st (xs ++ ys) ≡ ok st'
    → (mid : State) × (apply_all t st xs ≡ ok mid) × (apply_all t mid ys ≡ ok st')
apply_all-parts t st st' xs ys h = elim (Result-cases (apply_all t st xs)) [
  | inl (mid, p) ↦ (mid, p, rw (apply_all-append t st xs ys, p) at h)
  | inr (why, p) ↦ absurd (cc (rw (apply_all-append t st xs ys, p) at h))
]

settle-Holds :
    (t : ℕ) (st st' : State) (id : String) (e : Settlement)
    → e.cost_provenance ≡ "native-reported"
    → apply_all t st (Event.settle id e ∷ []) ≡ ok st'
    → Holds is_native id st'
unfolding apply_all apply settle_session is_estimate
settle-Holds t st st' id e named h =
    elim (Result-cases (update_session st id (λ s. settle_session t s e))) [
      | inl (mid, p) ↦
          let (x, found, written) = update_session-eq_ok st mid id (λ s. settle_session t s e) p in
          subst (λ s. Holds is_native id s) (ok-injective _ st' (rw p at h))
            (
              settle_session t x e,
              rw written
                  (lookup-insert id id (settle_session t x e) st.sessions ∙ rw (beq_refl id)),
              rw named refl,
            )
      | inr (why, p) ↦ absurd (cc (rw p at h))
    ]

correct_native-Holds :
    (t : ℕ) (st st' : State) (r : Receipt) (x : Session) (totals : Dict String ℤ) (cost : ℤ)
    → Holds is_settled_of r.id st
    → apply t st (correct_native r x totals cost) ≡ ok st'
    → Holds is_native r.id st'
unfolding apply correct_native amend is_estimate
correct_native-Holds t st st' r x totals cost (y, found, settled) h =
    let (z, again, written) = update_session-eq_ok moved st' r.id (λ s. amend s cost change) h in
    subst (λ s. Holds is_native r.id s) (sym written)
      (
        amend z cost change,
        lookup-insert r.id r.id (amend z cost change) st.sessions ∙ rw (beq_refl r.id),
        ground arith,
      )
  where
    change : Amendment
    change = record no_amendment {
      cost_provenance = some "native-reported";
      totals = some totals;
      finished = r.finished;
    }

    moved : State
    moved = record st {
      balance = st.balance +ℤ (cost_of x -ℤ cost);
      spent = st.spent -ℤ (cost_of x -ℤ cost);
    }

corrected-Holds :
    (t : ℕ) (st st' : State) (r : Receipt) (x : Session) (totals : Dict String ℤ) (cost : ℤ)
    (later : List Event)
    → All (Keeps is_native) later
    → Holds is_settled_of r.id st
    → apply_all t st (correct_native r x totals cost ∷ later) ≡ ok st'
    → Holds is_native r.id st'
unfolding apply_all
corrected-Holds t st st' r x totals cost later keep held h =
    elim (Result-cases (apply t st (correct_native r x totals cost))) [
      | inl (fixed, q) ↦
          apply_all-Holds is_native t r.id fixed st' later keep (rw q at h)
            (correct_native-Holds t st fixed r x totals cost held q)
      | inr (why, q) ↦ absurd (cc (rw q at h))
    ]

settle_native-Holds :
    (t : ℕ) (st st' : State) (r : Receipt) (remark : Option String) (x : Session)
    (totals : Dict String ℤ) (cost : ℤ)
    → apply_all t st (settle_native r remark x totals cost) ≡ ok st'
    → Holds is_native r.id st'
unfolding settle_native
settle_native-Holds t st st' r remark x totals cost h =
    let (mid, run, last) = apply_all-parts t st st' _ _ h in settle-Holds t mid st' r.id _ refl last

clamped-Keeps : (k : String) (p : Session) (v c : ℤ) → Keeps is_settled_of (constrained k p v c)
unfolding amend
clamped-Keeps k p v c y settled = settled

-- After the events of a receipt that is charged, its invocation is settled natively.
pub native_events-Holds :
    (t : ℕ) (st mid st' : State) (r : Receipt) (remark : Option String) (x : Session)
    (priors ordered : List Session) (totals baseline : Dict String ℤ) (cost : ℤ) (body : List Event)
    → lookup r.id st.sessions ≡ some x
    → apply_all t st (clamps priors baseline totals).1 ≡ ok mid
    → native_events r remark x ordered totals cost ≡ ok body
    → apply_all t mid body ≡ ok st'
    → Holds is_native r.id st'
unfolding native_events
native_events-Holds t st mid st' r remark x priors ordered totals baseline cost body found run e h =
    elim (Bool-cases (is_settled x.status)) [
      | inl over ↦
          elim (Result-cases (successors totals delta (later_of totals (after r.id ordered)))) [
            | inl (later, p) ↦
                corrected-Holds t mid st' r x totals cost later
                  (successors-Keeps totals delta _ later p)
                  (apply_all-Holds is_settled_of t r.id st mid (clamps priors baseline totals).1
                    (clamps-All (Keeps is_settled_of) clamped-Keeps priors totals baseline) run
                    (x, found, over))
                  (subst (λ es. apply_all t mid es ≡ ok st')
                    (sym (ok-injective _ body (rw (over, p) at e))) h)
            | inr (why, p) ↦ absurd (cc (rw (over, p) at e))
          ]
      | inr still ↦
          settle_native-Holds t mid st' r remark x totals cost (
            subst (λ es. apply_all t mid es ≡ ok st') (sym (ok-injective _ body (rw still at e))) h)
    ]
  where
    delta : ℤ
    delta = cost -ℤ cost_of x
