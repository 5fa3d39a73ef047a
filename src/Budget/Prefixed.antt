-- ===== src/Budget/Prefixed.antt =====
-- tauceti_worker/budget.py, `recover_usage`: the session that a recovery leaves.
use tau_ceti_worker.Budget.Estimate.{is_settled, cost_of}
use tau_ceti_worker.Budget.Ledger.{
  apply, apply_all, amend, settle_session, unresolve_session, bound_session, update_session,
  or_else,
}
use tau_ceti_worker.Budget.Outcome.{written_back}
use tau_ceti_worker.Budget.Recovery.{
  recover_session, recover_saved, prefix_charge, usage_reserve, cost_found, is_running, is_charged,
  Journal, Saved, Recovered,
}
use tau_ceti_worker.Budget.Receipts.{same_amount_refl}
use tau_ceti_worker.Budget.Replay.Keyed.{update_session-eq_ok}
use tau_ceti_worker.Budget.Settlement.{no_amendment}
use tau_ceti_worker.Budget.State.{
  Status, Event, Session, Settlement, State, Store, Result-cases, ok, ok-injective,
}
use tau_ceti_worker.Prelude.{
  ◌||◌, ℕ, String, string_eq, beq_refl, Bool, true, false, Option, none, some, [], ◌∷◌, lookup, ◌≡◌,
  ◌⊎◌, inl, inr, refl, ◌∙◌, ap, if_both,
}
use tau_ceti_worker.Prelude.Int.{pos, ◌-ℤ◌, ◌+ℤ◌}

-- A session that a further recovery leaves as it is: settled, or charged for what is saved.
abbrev pub IsDone : Journal → State → String → Session → Type 0
IsDone j st id x =
    (is_settled x.status ≡ true)
    ⊎ ((saved : Saved) × (j.saved id ≡ some saved)
        × (is_charged st saved x ≡ true)
        × (saved.complete ≡ false))

pub recover_session-done :
    (j : Journal) (s : Store) (st : State) (now : ℕ) (id : String) (x : Session)
    (remark : Option String) (allow_live_owner dry_run : Bool)
    → IsDone j st id x
    → (recover_session j s st now id (some x) remark allow_live_owner dry_run).0 ≡ s
unfolding recover_session recover_saved
recover_session-done j s st now id x remark allow dry (inl over) = rw over
recover_session-done j s st now id x remark allow dry (inr (saved, there, charged, part)) =
    if_both (λ (o : Store × Option Recovered). o.0 ≡ s)
      (is_settled x.status || is_running j allow x) (λ closed. refl)
      (λ stopped. rw there (
        if_both (λ (o : Store × Option Recovered). o.0 ≡ s) saved.has_items
          (λ items.
            if_both (λ (o : Store × Option Recovered). o.0 ≡ s) dry (λ d. refl)
              (λ wet.
                if_both (λ (o : Store × Option Recovered). o.0 ≡ s) saved.complete
                  (λ whole. absurd (cc (whole, part)))
                  (λ _.
                    if_both (λ (o : Store × Option Recovered). o.0 ≡ s) (is_charged st saved x)
                      (λ before. refl) (λ anew. absurd (cc (anew, charged))))))
          (λ empty. refl)))

-- A settlement at the end of a line leaves the session settled.
pub settled_last :
    (t : ℕ) (st st' : State) (id : String) (e : Settlement) (y : Session)
    → apply_all t st (Event.settle id e ∷ []) ≡ ok st'
    → lookup id st'.sessions ≡ some y
    → is_settled y.status ≡ true
unfolding apply_all apply settle_session
settled_last t st st' id e y h found =
    elim (Result-cases (update_session st id (λ s. settle_session t s e))) [
      | inl (mid, p) ↦
          let (x, there, written) = update_session-eq_ok st mid id (λ s. settle_session t s e) p in
          ap (λ z. is_settled z.status)
            (written_back st mid id (λ s. settle_session t s e) x y p there
              (ap (λ z. lookup id z.sessions) (ok-injective _ st' (rw p at h)) ∙ found))
      | inr (why, p) ↦ absurd (cc (rw p at h))
    ]

abbrev pub prefixed : State → Saved → Session → Session
prefixed st saved x = record x {
  status = Status.provisional;
  cost = some (cost_found saved x);
  cost_provenance = some "token-priced-prefix";
  reserve = some (usage_reserve st saved x);
  lower_bound_cost = some (or_else x.lower_bound_cost (pos 0));
  outcome = some "incomplete request; token-priced prefix charged";
  usage_checkpoint = some (saved.stamp (cost_found saved x));
  usage_tail = some (usage_reserve st saved x);
}

pub prefixed-is_charged :
    (st now : State) (saved : Saved) (x : Session)
    → is_charged now saved (prefixed st saved x) ≡ true
unfolding is_charged usage_reserve
prefixed-is_charged st now saved x =
    rw
      (
        same_amount_refl (cost_found saved x),
        beq_refl (saved.stamp (cost_found saved x)),
        same_amount_refl (usage_reserve st saved x),
      )
      refl

-- The prefix is charged: the session as the two events leave it.
pub charged_last :
    (t : ℕ) (st st' : State) (before : State) (id : String) (saved : Saved) (x y : Session)
    → apply_all t st (prefix_charge before id saved x) ≡ ok st'
    → lookup id st.sessions ≡ some x
    → lookup id st'.sessions ≡ some y
    → y ≡ prefixed before saved x
unfolding apply_all apply prefix_charge amend unresolve_session bound_session
charged_last t st st' before id saved x y h found there =
    elim (Result-cases (update_session moved id corrected)) [
      | inr (why, p) ↦ absurd (cc (rw p at h))
      | inl (mid, p) ↦ elim (Result-cases (update_session mid id reserved)) [
        | inr (why, q) ↦ absurd (cc (rw (p, q) at h))
        | inl (last, q) ↦
            let (z, middle, _) = update_session-eq_ok mid last id reserved q in
            written_back mid last id reserved z y q middle
              (ap (λ w. lookup id w.sessions) (ok-injective last st' (rw (p, q) at h)) ∙ there)
            ∙ ap (λ w. reserved w) (written_back moved mid id corrected x z p found middle)
      ]
    ]
  where
    moved : State
    moved = record st {
      balance = st.balance +ℤ (cost_of x -ℤ cost_found saved x);
      spent = st.spent -ℤ (cost_of x -ℤ cost_found saved x);
    }

    corrected : Session → Session
    corrected w =
        amend w (cost_found saved x)
          (record no_amendment { cost_provenance = some "token-priced-prefix" })

    reserved : Session → Session
    reserved w = unresolve_session w "incomplete request; token-priced prefix charged" true none (
        some (record {
          reserve = usage_reserve before saved x;
          cost = or_else x.lower_bound_cost (pos 0);
          totals = x.lower_bound_totals;
          usage_checkpoint = some (saved.stamp (cost_found saved x));
          usage_tail = some (usage_reserve before saved x);
        }))
