-- ===== src/Budget/Books/Received.antt =====
-- tauceti_worker/budget.py: `settle_receipt` keeps the books, whichever way it takes.
use tau_ceti_worker.Budget.Books.Receiving.{charged-Booked}
use tau_ceti_worker.Budget.Books.Operations.{settle-Booked, accrued-Booked, known}
use tau_ceti_worker.Budget.Books.Events.{Booked, IsBooked}
use tau_ceti_worker.Budget.Books.Clamped.{DistinctKeys}
use tau_ceti_worker.Budget.Acceptance.{settle_receipt-eq_ok}
use tau_ceti_worker.Budget.Charged.{charge-none, charge-some}
use tau_ceti_worker.Budget.Outcome.{if_ok}
use tau_ceti_worker.Budget.Booking.{
  settle_receipt, book, book_totals, book_bound, leave_open, native_events,
}
use tau_ceti_worker.Budget.Evidence.{
  Receipt, Supervision, Totals, any_negative, check_totals, total_map, added, bounded, is_known,
  bound_receipt,
}
use tau_ceti_worker.Budget.Cumulative.{clamps, earlier, baseline_of, related}
use tau_ceti_worker.Budget.Estimate.{is_settled}
use tau_ceti_worker.Budget.Ledger.{append, accrue_event}
use tau_ceti_worker.Budget.Replay.Append.{Reads}
use tau_ceti_worker.Budget.State.{
  Event, Session, State, Store, LowerBound, Result-cases, ok, ok-injective,
}
use tau_ceti_worker.Prelude.{
  ◌++◌, ℕ, String, string_eq, Bool, Bool-cases, Option-cases, true, false, Option, none, some, List,
  [], ◌∷◌, Dict, keys, lookup, ◌≡◌, inl, inr, ◌∙◌, subst, sym, ap,
}
use tau_ceti_worker.Prelude.Int.{ℤ}

leave_open-Booked :
    (s s' : Store) (now : ℕ) (r : Receipt) (remark : Option String) (x : Session)
    → Booked s
    → leave_open s now r remark x ≡ ok s'
    → Booked s'
unfolding leave_open
leave_open-Booked s s' now r remark x b h = elim (Bool-cases (is_settled x.status)) [
  | inl over ↦ subst (λ z. Booked z) (ok-injective s s' (rw over at h)) b
  | inr still ↦
      settle-Booked s s' now r.id none r.outcome remark [] "native-reported" r.finished
        (rw still at h) b
]

book_totals-Booked :
    (s s' : Store) (st : State) (now : ℕ) (r : Receipt) (remark : Option String) (x : Session)
    (providers : List String) (totals : Dict String ℤ)
    → Reads s st
    → IsBooked st
    → lookup r.id st.sessions ≡ some x
    → DistinctKeys totals
    → book_totals s st now r remark x (related st providers r.id) totals ≡ ok s'
    → Booked s'
unfolding book_totals
book_totals-Booked s s' st now r remark x providers totals reads booked found single h =
    elim (Option-cases (added (clamps priors baseline totals).0 totals)) [
      | inl below ↦
          leave_open-Booked s s' now r remark x (st, reads, booked)
            (rw (book_totals, charge-none r remark x ordered totals below) at h)
      | inr (cost, above) ↦ elim (Result-cases (native_events r remark x ordered totals cost)) [
        | inl (body, p) ↦
            charged-Booked s s' st now r remark x providers totals baseline cost body reads booked
              found single p
              (ok-injective _ s'
                (rw (book_totals, charge-some r remark x ordered totals cost above, p) at h))
        | inr (why, p) ↦
            absurd (cc (rw (book_totals, charge-some r remark x ordered totals cost above, p) at h))
      ]
    ]
  where
    ordered : List Session
    ordered = related st providers r.id

    priors : List Session
    priors = earlier r.id ordered

    baseline : Dict String ℤ
    baseline = baseline_of [] priors

bound_receipt-Booked :
    (s s' : Store) (st : State) (now : ℕ) (r : Receipt) (x : Session) (provisional : Bool)
    (lower : Dict String ℤ) (cost : ℤ)
    → Reads s st
    → IsBooked st
    → lookup r.id st.sessions ≡ some x
    → bound_receipt s st now r x provisional lower cost ≡ ok s'
    → Booked s'
unfolding bound_receipt
bound_receipt-Booked s s' st now r x p lower cost reads booked found h =
    elim (if_ok (is_known x p bound) s (append s st now (accrue_event st now ∷ es)) s' h) [
      | inl same ↦ subst (λ z. Booked z) same (st, reads, booked)
      | inr written ↦
          subst (λ z. Booked z) written
            (accrued-Booked s st now es reads booked
              (λ st' same. ((x, ap (λ d. lookup r.id d) same ∙ found), λ _ _. tt)))
    ]
  where
    bound : LowerBound
    bound = bounded st r x lower cost

    es : List Event
    es = Event.unresolve r.id r.outcome p r.finished (some bound) ∷ []

book_bound-Booked :
    (s s' : Store) (st : State) (now : ℕ) (r : Receipt) (remark : Option String) (x : Session)
    (provisional : Bool) (ordered : List Session) (lower : Dict String ℤ)
    → Reads s st
    → IsBooked st
    → lookup r.id st.sessions ≡ some x
    → book_bound s st now r remark provisional x ordered lower ≡ ok s'
    → Booked s'
unfolding book_bound
book_bound-Booked s s' st now r remark x p ordered [] reads booked found h =
    leave_open-Booked s s' now r remark x (st, reads, booked) h
book_bound-Booked s s' st now r remark x p ordered (a ∷ lower) reads booked found h =
    elim (Bool-cases (is_settled x.status)) [
      | inl over ↦ subst (λ z. Booked z) (ok-injective s s' (rw over at h)) (st, reads, booked)
      | inr still ↦
          elim (Option-cases (added (baseline_of [] (earlier r.id ordered)) (a ∷ lower))) [
            | inl below ↦
                leave_open-Booked s s' now r remark x (st, reads, booked) (rw (still, below) at h)
            | inr (cost, above) ↦
                bound_receipt-Booked s s' st now r x p (a ∷ lower) cost reads booked found
                  (rw (still, above) at h)
          ]
    ]

book-Booked :
    (s s' : Store) (st : State) (now : ℕ) (r : Receipt) (remark : Option String) (x : Session)
    (provisional : Bool) (totals : Option (Dict String ℤ)) (lower : Dict String ℤ)
    → Reads s st
    → IsBooked st
    → lookup r.id st.sessions ≡ some x
    → DistinctKeys (total_map totals)
    → book s st now r remark provisional x totals lower ≡ ok s'
    → Booked s'
unfolding book
book-Booked s s' st now r remark x p none lower reads booked found single h =
    book_bound-Booked s s' st now r remark x p (related st (keys lower) r.id) lower reads booked
      found h
book-Booked s s' st now r remark x p (some totals) lower reads booked found single h =
    book_totals-Booked s s' st now r remark x (keys totals ++ keys lower) totals reads booked found
      single h

-- The keys of a JSON object are different.
abbrev pub IsObject : Totals → Type 0
IsObject (Totals.amounts d) = DistinctKeys d
IsObject _ = Unit

check_totals-DistinctKeys :
    (provisional : Bool) (t : Totals) (totals : Option (Dict String ℤ))
    → IsObject t
    → check_totals provisional t ≡ ok totals
    → DistinctKeys (total_map totals)
unfolding check_totals
check_totals-DistinctKeys true t totals object h =
    subst (λ d. DistinctKeys (total_map d)) (ok-injective none totals h) tt
check_totals-DistinctKeys false Totals.malformed totals object h = absurd (cc)
check_totals-DistinctKeys false (Totals.amounts []) totals object h = absurd (cc)
check_totals-DistinctKeys false (Totals.amounts (a ∷ d)) totals object h =
    elim (Bool-cases (any_negative (a ∷ d))) [
      | inl below ↦ absurd (cc (rw below at h))
      | inr above ↦
          subst (λ m. DistinctKeys (total_map m)) (ok-injective _ totals (rw above at h)) object
    ]
check_totals-DistinctKeys false Totals.absent totals object h =
    subst (λ d. DistinctKeys (total_map d)) (ok-injective none totals h) tt
check_totals-DistinctKeys false Totals.null totals object h =
    subst (λ d. DistinctKeys (total_map d)) (ok-injective none totals h) tt

pub settle_receipt-Booked :
    (v : Supervision) (s s' : Store) (now : ℕ) (r : Receipt) (remark : Option String)
    → IsObject r.totals
    → settle_receipt v s now r remark ≡ ok s'
    → Booked s
    → Booked s'
settle_receipt-Booked v s s' now r remark object h b =
    let a = settle_receipt-eq_ok v s s' now r remark h in
    elim a.outcome [
      | inl (native, kept) ↦ subst (λ z. Booked z) (sym kept) b
      | inr (other, p, totals, lower, good, done) ↦
          let (reads, booked) = known s a.state b a.read in
          book-Booked s s' a.state now r remark a.session p totals lower reads booked a.found
            (check_totals-DistinctKeys p r.totals totals object good) done
    ]
