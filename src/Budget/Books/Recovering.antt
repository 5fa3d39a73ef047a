-- ===== src/Budget/Books/Recovering.antt =====
-- tauceti_worker/budget.py: `recover_usage` keeps the ledger readable and its books right.
use tau_ceti_worker.Budget.Books.Receiving.{take_back-FitsAll}
use tau_ceti_worker.Budget.Books.Operations.{accrued-Booked, corrected-lookup, known}
use tau_ceti_worker.Budget.Books.Events.{Booked, IsBooked}
use tau_ceti_worker.Budget.Estimate.{is_settled}
use tau_ceti_worker.Budget.Ledger.{current}
use tau_ceti_worker.Budget.Recovery.{
  recover_usage, recover_session, recover_saved, complete_events, prefix_charge, is_running,
  is_charged, Journal, Saved, Recovered,
}
use tau_ceti_worker.Budget.Replay.Append.{Reads}
use tau_ceti_worker.Budget.State.{Session, State, Store, Result-cases, ok, ok-injective}
use tau_ceti_worker.Prelude.{
  if_both, ◌||◌, ℕ, String, string_eq, Bool, Bool-cases, Option-cases, true, false, Option, none,
  some, lookup, ◌≡◌, inl, inr, refl, ◌∙◌, subst, ap,
}

recover_saved-Booked :
    (s : Store) (st : State) (now : ℕ) (id : String) (saved : Saved) (x : Session)
    (remark : Option String) (dry_run : Bool)
    → Reads s st
    → IsBooked st
    → lookup id st.sessions ≡ some x
    → Booked (recover_saved s st now id saved x remark dry_run).0
unfolding recover_saved complete_events prefix_charge
recover_saved-Booked s st now id saved x remark true reads booked found = (st, reads, booked)
recover_saved-Booked s st now id saved x remark false reads booked found =
    if_both (λ (o : Store × Option Recovered). Booked o.0) saved.complete
      (λ whole.
        accrued-Booked s st now (complete_events st id saved x remark) reads booked
          (λ st' same. take_back-FitsAll now st' id x _ (ap (λ d. lookup id d) same ∙ found)))
      (λ partial.
        if_both (λ (o : Store × Option Recovered). Booked o.0) (is_charged st saved x)
          (λ before. (st, reads, booked))
          (λ anew. accrued-Booked s st now (prefix_charge st id saved x) reads booked (λ st' same. (
            (x, ap (λ d. lookup id d) same ∙ found, refl),
            λ st'' h.
                let (y, there, _) =
                  corrected-lookup now st' st'' id x _ _ _ (ap (λ d. lookup id d) same ∙ found) h in
                ((y, there), λ _ _. tt),
          ))))

recover_session-Booked :
    (j : Journal) (s : Store) (st : State) (now : ℕ) (id : String) (found : Option Session)
    (remark : Option String) (allow_live_owner dry_run : Bool)
    → lookup id st.sessions ≡ found
    → Reads s st
    → IsBooked st
    → Booked (recover_session j s st now id found remark allow_live_owner dry_run).0
unfolding recover_session
recover_session-Booked j s st now id none remark allow dry e reads booked = (st, reads, booked)
recover_session-Booked j s st now id (some x) remark allow dry e reads booked =
    elim (Bool-cases (is_settled x.status || is_running j allow x)) [
      | inl closed ↦ rw closed (st, reads, booked)
      | inr stopped ↦ elim (Option-cases (j.saved id)) [
        | inl nothing ↦ rw (stopped, nothing) (st, reads, booked)
        | inr (saved, there) ↦ elim (Bool-cases saved.has_items) [
          | inl some_items ↦
              rw (stopped, there, some_items)
                (recover_saved-Booked s st now id saved x remark dry reads booked e)
          | inr empty ↦ rw (stopped, there, empty) (st, reads, booked)
        ]
      ]
    ]

pub recover_usage-Booked :
    (j : Journal) (s s' : Store) (now : ℕ) (id : String) (remark : Option String)
    (allow_live_owner dry_run : Bool) (answer : Option Recovered)
    → recover_usage j s now id remark allow_live_owner dry_run ≡ ok (s', answer)
    → Booked s
    → Booked s'
unfolding recover_usage
recover_usage-Booked j s s' now id remark allow dry answer h b = elim (Result-cases (current s)) [
  | inr (why, e) ↦ absurd (cc (rw e at h))
  | inl (st, e) ↦
      let (reads, booked) = known s st b e in
      subst (λ z. Booked z.0) (ok-injective _ (s', answer) (rw e at h))
        (recover_session-Booked j s st now id (lookup id st.sessions) remark allow dry refl reads
          booked)
]
