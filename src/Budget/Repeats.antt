-- ===== src/Budget/Repeats.antt =====
-- tauceti_worker/budget.py, `recover_usage`: a repeated recovery changes nothing.
use tau_ceti_worker.Budget.Estimate.{is_settled}
use tau_ceti_worker.Budget.Funds.Admitted.{renumbered}
use tau_ceti_worker.Budget.Ledger.{current, accrued}
use tau_ceti_worker.Budget.Native.{apply_all-parts}
use tau_ceti_worker.Budget.Outcome.{line-events}
use tau_ceti_worker.Budget.Recovery.{
  recover_usage, recover_session, recover_saved, complete_events, prefix_charge, is_running,
  is_charged, Journal, Saved, Recovered,
}
use tau_ceti_worker.Budget.Booking.{take_back}
use tau_ceti_worker.Budget.Replay.Append.{Reads, Reads-current}
use tau_ceti_worker.Budget.Prefixed.{
  IsDone, recover_session-done, settled_last, prefixed-is_charged, charged_last,
}
use tau_ceti_worker.Budget.State.{Session, State, Store, Result-cases, ok, ok-injective}
use tau_ceti_worker.Prelude.{
  ◌||◌, ℕ, String, string_eq, Bool, Bool-cases, Option-cases, true, false, Option, none, some,
  lookup, ◌≡◌, ◌⊎◌, inl, inr, refl, ◌∙◌, subst, sym, ap, if_both,
}

-- What a recovery leaves: the store as it was, or a session that is done.
recover_saved-IsDone :
    (j : Journal) (s s' : Store) (st st' : State) (now : ℕ) (id : String) (saved : Saved)
    (x y : Session) (remark : Option String) (dry_run : Bool)
    → j.saved id ≡ some saved
    → Reads s st
    → lookup id st.sessions ≡ some x
    → (recover_saved s st now id saved x remark dry_run).0 ≡ s'
    → Reads s' st'
    → lookup id st'.sessions ≡ some y
    → (s' ≡ s) ⊎ IsDone j st' id y
unfolding recover_saved complete_events renumbered accrued
recover_saved-IsDone j s s' st st' now id saved x y remark true known reads found h reads' there =
    inl (sym h)
recover_saved-IsDone j s s' st st' now id saved x y remark false known reads found h reads' there =
    if_both Leaves saved.complete
      (λ whole line.
        let (mid, _, last) =
          apply_all-parts now (renumbered st now) st' (take_back id x) _ (
            line-events s st st' now (complete_events st id saved x remark) reads (written line)) in
        inr (inl (settled_last now mid st' id _ y last there)))
      (λ part.
        if_both Leaves (is_charged st saved x) (λ before line. inl (sym line))
          (λ anew line. inr (
            inr (
              saved,
              known,
              ap (λ z. is_charged st' saved z)
                    (charged_last now (renumbered st now) st' st id saved x y
                      (line-events s st st' now (prefix_charge st id saved x) reads (written line))
                      found there)
                  ∙ prefixed-is_charged st st' saved x,
              part,
            ))))
      h
  where
    Leaves : Store × Option Recovered → Type 0
    Leaves o = o.0 ≡ s' → (s' ≡ s) ⊎ IsDone j st' id y

    written : {z : Store} → z ≡ s' → Reads z st'
    written line = subst (λ w. Reads w st') (sym line) reads'

recover_session-Leaves :
    (j : Journal) (s s' : Store) (st st' : State) (now : ℕ) (id : String) (found : Option Session)
    (y : Session) (remark : Option String) (allow_live_owner dry_run : Bool)
    → lookup id st.sessions ≡ found
    → Reads s st
    → (recover_session j s st now id found remark allow_live_owner dry_run).0 ≡ s'
    → Reads s' st'
    → lookup id st'.sessions ≡ some y
    → (s' ≡ s) ⊎ IsDone j st' id y
unfolding recover_session
recover_session-Leaves j s s' st st' now id none y remark allow dry e reads h reads' there =
    inl (sym h)
recover_session-Leaves j s s' st st' now id (some x) y remark allow dry e reads h reads' there =
    elim (Bool-cases (is_settled x.status || is_running j allow x)) [
      | inl closed ↦ inl (sym (rw closed at h))
      | inr stopped ↦ elim (Option-cases (j.saved id)) [
        | inl nothing ↦ inl (sym (rw (stopped, nothing) at h))
        | inr (saved, known) ↦ elim (Bool-cases saved.has_items) [
          | inl items ↦
              recover_saved-IsDone j s s' st st' now id saved x y remark dry known reads e
                (rw (stopped, known, items) at h) reads' there
          | inr empty ↦ inl (sym (rw (stopped, known, empty) at h))
        ]
      ]
    ]

-- A store whose state is read, with what an operation made of it.
read_first :
    (j : Journal) (s s' : Store) (now : ℕ) (id : String) (remark : Option String)
    (allow_live_owner dry_run : Bool) (answer : Option Recovered)
    → recover_usage j s now id remark allow_live_owner dry_run ≡ ok (s', answer)
    → (st : State) × (current s ≡ ok st)
      × ((recover_session j s st now id (lookup id st.sessions) remark allow_live_owner dry_run).0
          ≡ s')
unfolding recover_usage
read_first j s s' now id remark allow dry answer h = elim (Result-cases (current s)) [
  | inr (why, e) ↦ absurd (cc (rw e at h))
  | inl (st, e) ↦ (st, e, ap (λ o. o.0) (ok-injective _ (s', answer) (rw e at h)))
]

-- Two recoveries of an invocation for which the same is saved, one right after the other, at any
-- times and whatever the rest of the world is by then: the first changed nothing, or the second
-- changes nothing.
pub recover_usage-recover_usage :
    (j j' : Journal) (s s' s'' : Store) (now now' : ℕ) (id : String)
    (remark remark' : Option String) (allow allow' dry_run dry_run' : Bool)
    (answer answer' : Option Recovered)
    → j'.saved id ≡ j.saved id
    → recover_usage j s now id remark allow dry_run ≡ ok (s', answer)
    → recover_usage j' s' now' id remark' allow' dry_run' ≡ ok (s'', answer')
    → (s' ≡ s) ⊎ (s'' ≡ s')
unfolding recover_session
recover_usage-recover_usage j j' s s' s'' now now' id remark remark' allow allow' dry dry' answer
      answer' same first second =
    let (st, e, one) = read_first j s s' now id remark allow dry answer first in
    let (st', e', two) = read_first j' s' s'' now' id remark' allow' dry' answer' second in
    elim (Option-cases (lookup id st'.sessions)) [
      | inl missing ↦ inr (sym (rw missing at two))
      | inr (y, there) ↦
          elim (recover_session-Leaves j s s' st st' now id (lookup id st.sessions) y remark allow
            dry refl (Reads-current s st e).0 one (Reads-current s' st' e').0 there) [
              | inl kept ↦ inl kept
              | inr (inl over) ↦ inr (
                  sym (rw there at two)
                  ∙ recover_session-done j' s' st' now' id y remark' allow' dry' (inl over))
              | inr (inr (saved, known, charged, part)) ↦ inr (
                  sym (rw there at two)
                  ∙ recover_session-done j' s' st' now' id y remark' allow' dry'
                      (inr (saved, same ∙ known, charged, part)))
            ]
    ]
