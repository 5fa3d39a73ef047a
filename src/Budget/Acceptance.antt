-- ===== src/Budget/Acceptance.antt =====
-- tauceti_worker/budget.py, `settle_receipt`: what an accepted receipt has passed and read.
use tau_ceti_worker.Budget.Evidence.{
  is_absent, has_totals, invalid_time, Receipt, Supervision, lower_of, check_lower, check_totals,
}
use tau_ceti_worker.Budget.Booking.{contradicted, settle_receipt, book, book_session, is_native}
use tau_ceti_worker.Budget.State.{
  Result-cases, ok, missing_totals, usage_recorded, still_running, invalid_finish, raise_if, ◌>>◌,
  raise_if-eq_ok, ok-injective, Store, State, Session, ◌>>=◌,
}
use tau_ceti_worker.Budget.Ledger.{current}
use tau_ceti_worker.Prelude.{
  ◌&&◌, ◌||◌, Bool, true, false, Option, Bool-cases, none, some, Dict, lookup, String, string_eq, ℕ,
  ◌≡◌, refl, inl, inr, ◌⊎◌, sym,
}
use tau_ceti_worker.Prelude.Int.{ℤ}

-- What an accepted receipt has read, and what it went on with.
pub record Accepted (s s' : Store) (now : ℕ) (r : Receipt) (remark : Option String) : Type 0 where
  pub state : State
  pub session : Session
  pub read : current s ≡ ok state
  pub found : lookup r.id state.sessions ≡ some session
  pub outcome :
      ((is_native session ≡ true) × (s' ≡ s))
      ⊎ ((is_native session ≡ false)
          × (provisional : Bool) × (totals : Option (Dict String ℤ)) × (lower : Dict String ℤ)
          × (check_totals provisional r.totals ≡ ok totals)
          × (book s state now r remark provisional session totals lower ≡ ok s'))

book_session-eq_ok :
    (v : Supervision) (s s' : Store) (st : State) (now : ℕ) (r : Receipt) (remark : Option String)
    (provisional : Bool) (totals : Option (Dict String ℤ)) (lower : Dict String ℤ)
    (found : Option Session)
    → check_totals provisional r.totals ≡ ok totals
    → current s ≡ ok st
    → lookup r.id st.sessions ≡ found
    → book_session v s st now r remark provisional totals lower found ≡ ok s'
    → Accepted s s' now r remark
unfolding book_session
book_session-eq_ok v s s' st now r remark p totals lower none good e f h = absurd (cc)
book_session-eq_ok v s s' st now r remark p totals lower (some x) good e f h =
    elim (Bool-cases (is_native x)) [
      | inl native ↦ record {
        state = st;
        session = x;
        read = e;
        found = f;
        outcome = inl (native, sym (ok-injective _ _ (rw native at guarded)));
      }
      | inr other ↦ record {
        state = st;
        session = x;
        read = e;
        found = f;
        outcome = inr (
          other,
          p,
          totals,
          lower,
          good,
          (raise_if-eq_ok (invalid_time x now r.finished) invalid_finish _ (rw other at guarded)).1,
        );
      }
    ]
  where
    guarded :
        (elim (is_native x) [
          | true ↦ ok s
          | false ↦
              raise_if (invalid_time x now r.finished) invalid_finish
              >> book s st now r remark p x totals lower
        ])
        ≡ ok s'
    guarded =
        (raise_if-eq_ok (has_totals totals && v.runs x) still_running _
          (raise_if-eq_ok (contradicted v r totals x) usage_recorded _ h).1).1

pub settle_receipt-eq_ok :
    (v : Supervision) (s s' : Store) (now : ℕ) (r : Receipt) (remark : Option String)
    → settle_receipt v s now r remark ≡ ok s'
    → Accepted s s' now r remark
unfolding settle_receipt
settle_receipt-eq_ok v s s' now r remark h =
    elim (Result-cases (check_lower (lower_of provisional r))) [
      | inr (x, p) ↦ absurd (cc (rw p at guarded))
      | inl (lower, p) ↦ elim (Result-cases (check_totals provisional r.totals)) [
        | inr (x, q) ↦ absurd (cc (rw (p, q) at guarded))
        | inl (totals, q) ↦ elim (Result-cases (current s)) [
          | inr (x, e) ↦ absurd (cc (rw (p, q, e) at guarded))
          | inl (st, e) ↦
              book_session-eq_ok v s s' st now r remark provisional totals lower
                (lookup r.id st.sessions) q e refl (rw (p, q, e) at guarded)
        ]
      ]
    ]
  where
    provisional : Bool
    provisional = r.provisional || v.mentions_running r.outcome

    guarded :
        (check_lower (lower_of provisional r) >>= λ lower.
        check_totals provisional r.totals >>= λ totals. current s >>= λ st.
        book_session v s st now r remark provisional totals lower (lookup r.id st.sessions))
        ≡ ok s'
    guarded = (raise_if-eq_ok (is_absent r.totals) missing_totals _ h).1
