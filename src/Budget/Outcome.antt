-- ===== src/Budget/Outcome.antt =====
-- tauceti_worker/budget.py, `settle_receipt`: what each way through it leaves of an invocation.
use tau_ceti_worker.Budget.Cumulative.{earlier, baseline_of}
use tau_ceti_worker.Budget.Estimate.{is_settled, cost_of}
use tau_ceti_worker.Budget.Evidence.{added, is_known, bounded, bound_receipt, Receipt}
use tau_ceti_worker.Budget.Booking.{book_bound, leave_open, is_native}
use tau_ceti_worker.Budget.State.{
  Result-cases, ok, ok-injective, Store, State, LowerBound, Event, Session,
}
use tau_ceti_worker.Budget.Replay.Append.{Reads-current, append-Reads, Reads}
use tau_ceti_worker.Budget.Books.Events.{unresolve_session-cost}
use tau_ceti_worker.Budget.Ledger.{
  accrued, current, append, accrue_event, update_session, unresolve_session, apply, apply_all,
}
use tau_ceti_worker.Prelude.{
  Option-cases, if◌then◌else◌, List, beq_refl, ap, subst, lookup-insert, [], ◌∷◌, arith, Bool, true,
  false, Option, Bool-cases, none, some, Dict, lookup, String, string_eq, ℕ, ◌≡◌, inl, inr, ◌⊎◌,
  sym, ◌∙◌,
}
use tau_ceti_worker.Budget.Replay.Keyed.{update_session-eq_ok}
use tau_ceti_worker.Budget.Settlement.{settle, settle_session_of, settle_events}
use tau_ceti_worker.Budget.Funds.Admitted.{renumbered}
use tau_ceti_worker.Prelude.Int.{ℤ}

-- What a receipt leaves of an invocation: booked natively, or at the cost that it had.
abbrev pub Outcome : Store → Session → Store → String → Type 0
Outcome s x s' id =
    (st' : State) (y : Session)
    → Reads s' st'
    → lookup id st'.sessions ≡ some y
    → (is_native y ≡ true) ⊎ (cost_of y ≡ cost_of x)

unchanged :
    (s s' : Store) (st : State) (x : Session) (id : String)
    → Reads s st
    → lookup id st.sessions ≡ some x
    → s ≡ s'
    → Outcome s x s' id
unchanged s s' st x id reads found same st' y reads' found' =
    inr (ground (arith, ok-injective st st' (sym reads.replayed ∙ again.replayed)))
  where
    again : Reads s st'
    again = subst (λ z. Reads z st') (sym same) reads'

pub written_back :
    (st st' : State) (id : String) (f : Session → Session) (x y : Session)
    → update_session st id f ≡ ok st'
    → lookup id st.sessions ≡ some x
    → lookup id st'.sessions ≡ some y
    → y ≡ f x
written_back st st' id f x y h found found' =
    let (z, found'', e) = update_session-eq_ok st st' id f h in
    ground (arith, rw e at found', lookup-insert id id (f z) st.sessions, beq_refl id)

-- What a line of an accrual and other events replays to comes from those events.
pub line-events :
    (s : Store) (st st' : State) (now : ℕ) (es : List Event)
    → Reads s st
    → Reads (append s st now (accrue_event st now ∷ es)) st'
    → apply_all now (renumbered st now) es ≡ ok st'
unfolding apply apply_all accrue_event renumbered accrued
line-events s st st' now es reads reads' =
    append-Reads s st st' now (accrue_event st now ∷ es) reads reads'

-- The sessions after a line that only leaves a cost open.
unresolved-cost :
    (s : Store) (st : State) (x : Session) (now : ℕ) (id outcome : String) (provisional : Bool)
    (finished : Option ℕ) (bound : Option LowerBound)
    → Reads s st
    → lookup id st.sessions ≡ some x
    → Outcome s x
        (append s st now
          (accrue_event st now ∷ Event.unresolve id outcome provisional finished bound ∷ []))
        id
unfolding apply apply_all renumbered accrued
unresolved-cost s st x now id o p f b reads found st' y reads' found' =
    elim (Result-cases (update_session (renumbered st now) id write)) [
      | inl (last, q) ↦ inr (
          ap (λ z. cost_of z)
            (written_back (renumbered st now) st' id write x y (q ∙ rw q at run) found found')
          ∙ unresolve_session-cost x o p f b)
      | inr (e, q) ↦ absurd (cc (rw q at run))
    ]
  where
    write : Session → Session
    write z = unresolve_session z o p f b

    run : apply_all now (renumbered st now) (Event.unresolve id o p f b ∷ []) ≡ ok st'
    run = line-events s st st' now (Event.unresolve id o p f b ∷ []) reads reads'

pub leave_open-Outcome :
    (s s' : Store) (st : State) (x : Session) (now : ℕ) (r : Receipt) (remark : Option String)
    → current s ≡ ok st
    → lookup r.id st.sessions ≡ some x
    → leave_open s now r remark x ≡ ok s'
    → (s ≡ s') ⊎ Outcome s x s' r.id
unfolding leave_open settle settle_session_of settle_events
leave_open-Outcome s s' st x now r remark e found h = elim (Bool-cases (is_settled x.status)) [
  | inl over ↦ inl (ok-injective s s' (rw over at h))
  | inr still ↦ inr (
      subst (λ z. Outcome s x z r.id) (ok-injective _ s' (rw (still, e, found, still) at h))
        (unresolved-cost s st x now r.id r.outcome false r.finished none (Reads-current s st e).0
          found))
]

pub if_ok {ℓ} :
    {A : Type ℓ} (b : Bool) (x y z : A) → (if b then ok x else ok y) ≡ ok z → (x ≡ z) ⊎ (y ≡ z)
if_ok true x y z h = inl (ok-injective x z h)
if_ok false x y z h = inr (ok-injective y z h)

bound_receipt-Outcome :
    (s s' : Store) (st : State) (x : Session) (now : ℕ) (r : Receipt) (provisional : Bool)
    (lower : Dict String ℤ) (known : ℤ)
    → current s ≡ ok st
    → lookup r.id st.sessions ≡ some x
    → bound_receipt s st now r x provisional lower known ≡ ok s'
    → (s ≡ s') ⊎ Outcome s x s' r.id
unfolding bound_receipt
bound_receipt-Outcome s s' st x now r p lower known e found h =
    elim (if_ok (is_known x p bound) s line s' h) [
      | inl same ↦ inl same
      | inr written ↦ inr (
          subst (λ z. Outcome s x z r.id) written
            (unresolved-cost s st x now r.id r.outcome p r.finished (some bound)
              (Reads-current s st e).0 found))
    ]
  where
    bound : LowerBound
    bound = bounded st r x lower known

    line : Store
    line =
        append s st now
          (accrue_event st now ∷ Event.unresolve r.id r.outcome p r.finished (some bound) ∷ [])

pub book_bound-Outcome :
    (s s' : Store) (st : State) (x : Session) (now : ℕ) (r : Receipt) (remark : Option String)
    (provisional : Bool) (ordered : List Session) (lower : Dict String ℤ)
    → current s ≡ ok st
    → lookup r.id st.sessions ≡ some x
    → book_bound s st now r remark provisional x ordered lower ≡ ok s'
    → (s ≡ s') ⊎ Outcome s x s' r.id
unfolding book_bound
book_bound-Outcome s s' st x now r remark p ordered [] e found h =
    leave_open-Outcome s s' st x now r remark e found h
book_bound-Outcome s s' st x now r remark p ordered (a ∷ lower) e found h =
    elim (Bool-cases (is_settled x.status)) [
      | inl over ↦ inl (ok-injective s s' (rw over at h))
      | inr still ↦
          elim (Option-cases (added (baseline_of [] (earlier r.id ordered)) (a ∷ lower))) [
            | inl below ↦ leave_open-Outcome s s' st x now r remark e found (rw (still, below) at h)
            | inr (known, above) ↦
                bound_receipt-Outcome s s' st x now r p (a ∷ lower) known e found
                  (rw (still, above) at h)
          ]
    ]
