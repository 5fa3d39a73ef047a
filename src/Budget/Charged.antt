-- ===== src/Budget/Charged.antt =====
-- tauceti_worker/budget.py, `settle_receipt`: what a receipt with totals leaves of an invocation.
use tau_ceti_worker.Budget.Cumulative.{clamps, earlier, baseline_of}
use tau_ceti_worker.Budget.Evidence.{added, Receipt}
use tau_ceti_worker.Budget.Booking.{charge, native_events, book_totals, book, is_native}
use tau_ceti_worker.Budget.State.{
  Result-cases, ok, ok-injective, Store, State, Event, Session, ◌>>=◌,
}
use tau_ceti_worker.Budget.Replay.Append.{Reads-current, Reads}
use tau_ceti_worker.Budget.Ledger.{accrued, current, append, accrue_event}
use tau_ceti_worker.Prelude.{
  ◌++◌, Option-cases, List, ap, subst, [], ◌∷◌, Bool, Option, none, some, Dict, lookup, String,
  string_eq, ℕ, ◌≡◌, inl, inr, ◌⊎◌, sym, ◌∙◌,
}
use tau_ceti_worker.Budget.Funds.Admitted.{renumbered}
use tau_ceti_worker.Budget.Native.{native_events-Holds, apply_all-parts}
use tau_ceti_worker.Budget.Corrected.{some_injective}
use tau_ceti_worker.Prelude.Int.{ℤ}
use tau_ceti_worker.Budget.Outcome.{Outcome, leave_open-Outcome, book_bound-Outcome, line-events}

-- A line that charges a receipt: what its events replay to.
charged-Outcome :
    (s s' : Store) (st : State) (x : Session) (now : ℕ) (r : Receipt) (remark : Option String)
    (priors ordered : List Session) (totals baseline : Dict String ℤ) (cost : ℤ) (body : List Event)
    → Reads s st
    → lookup r.id st.sessions ≡ some x
    → native_events r remark x ordered totals cost ≡ ok body
    → append s st now (accrue_event st now ∷ (clamps priors baseline totals).1 ++ body) ≡ s'
    → Outcome s x s' r.id
unfolding renumbered accrued
charged-Outcome s s' st x now r remark priors ordered totals baseline cost body reads found e line
      st' y reads' found' =
    let fixed = (clamps priors baseline totals).1 in
    let (mid, run, last) = apply_all-parts now (renumbered st now) st' fixed body (
      line-events s st st' now (fixed ++ body) reads
        (subst (λ z. Reads z st') (sym line) reads')) in
    let (z, there, native) =
      native_events-Holds now (renumbered st now) mid st' r remark x priors ordered totals baseline
        cost body found run e last in
    inl (ap (λ w. is_native w) (some_injective y z (sym found' ∙ there)) ∙ native)

pub charge-none :
    (r : Receipt) (remark : Option String) (x : Session) (ordered : List Session)
    (totals : Dict String ℤ)
    → added (clamps (earlier r.id ordered) (baseline_of [] (earlier r.id ordered)) totals).0 totals
      ≡ none
    → charge r remark x ordered totals ≡ none
unfolding charge
charge-none r remark x ordered totals h = rw (charge, h)

pub charge-some :
    (r : Receipt) (remark : Option String) (x : Session) (ordered : List Session)
    (totals : Dict String ℤ) (cost : ℤ)
    → added (clamps (earlier r.id ordered) (baseline_of [] (earlier r.id ordered)) totals).0 totals
      ≡ some cost
    → charge r remark x ordered totals
      ≡ some (
          native_events r remark x ordered totals cost >>= λ es.
          ok (
            (clamps (earlier r.id ordered) (baseline_of [] (earlier r.id ordered)) totals).1 ++ es))
unfolding charge
charge-some r remark x ordered totals cost h = rw (charge, h)

book_totals-Outcome :
    (s s' : Store) (st : State) (x : Session) (now : ℕ) (r : Receipt) (remark : Option String)
    (ordered : List Session) (totals : Dict String ℤ)
    → current s ≡ ok st
    → lookup r.id st.sessions ≡ some x
    → book_totals s st now r remark x ordered totals ≡ ok s'
    → (s ≡ s') ⊎ Outcome s x s' r.id
unfolding book_totals
book_totals-Outcome s s' st x now r remark ordered totals e found h =
    elim (Option-cases (added (clamps priors baseline totals).0 totals)) [
      | inl below ↦
          leave_open-Outcome s s' st x now r remark e found
            (rw (book_totals, charge-none r remark x ordered totals below) at h)
      | inr (cost, above) ↦ elim (Result-cases (native_events r remark x ordered totals cost)) [
        | inl (body, p) ↦ inr (
            charged-Outcome s s' st x now r remark priors ordered totals baseline cost body
              (Reads-current s st e).0 found p
              (ok-injective _ s'
                (rw (book_totals, charge-some r remark x ordered totals cost above, p) at h)))
        | inr (why, p) ↦
            absurd (cc (rw (book_totals, charge-some r remark x ordered totals cost above, p) at h))
      ]
    ]
  where
    priors : List Session
    priors = earlier r.id ordered

    baseline : Dict String ℤ
    baseline = baseline_of [] priors

pub book-Outcome :
    (s s' : Store) (st : State) (x : Session) (now : ℕ) (r : Receipt) (remark : Option String)
    (provisional : Bool) (totals : Option (Dict String ℤ)) (lower : Dict String ℤ)
    → current s ≡ ok st
    → lookup r.id st.sessions ≡ some x
    → book s st now r remark provisional x totals lower ≡ ok s'
    → (s ≡ s') ⊎ Outcome s x s' r.id
unfolding book
book-Outcome s s' st x now r remark p none lower e found h =
    book_bound-Outcome s s' st x now r remark p _ lower e found h
book-Outcome s s' st x now r remark p (some totals) lower e found h =
    book_totals-Outcome s s' st x now r remark _ totals e found h
