-- ===== src/Budget/Books/Operations.antt =====
-- Every operation of the budget keeps the ledger readable and its books right.
use tau_ceti_worker.Prelude.{
  ◌&&◌, Bool-cases, none, subst, max, Option, ℕ, ◌+◌, String, some, List, [], ◌∷◌, ◌++◌, lookup,
  lookup-insert, string_eq, beq_refl, ◌≡◌, refl, ap, sym, ◌∙◌, arith, inl, inr, Option-cases,
}
use tau_ceti_worker.Prelude.Int.{negsuc, ℤ, pos, ◌-ℤ◌, int_laws}
use tau_ceti_worker.Budget.State.{
  Amendment, exclusive_grants, grant_not_positive, negative_rate, negative_cost, ◌>>=◌,
  raise_if-eq_ok, Result, Result-cases, ok, ok-injective, Session, Settlement, Event, State, Store,
}
use tau_ceti_worker.Budget.Ledger.{or_else, current, apply, amend, accrue_event, append}
use tau_ceti_worker.Budget.Admission.{is_some}
use tau_ceti_worker.Budget.Estimate.{is_settled, cost_of}
use tau_ceti_worker.Budget.Settlement.{
  not_positive, is_negative, configure_events, settle_session_of, settle_events, rate_events,
  target_events, settle, cooldown, configure, no_amendment, prefix_events,
}
use tau_ceti_worker.Budget.Replay.Append.{Reads-current, Reads}
use tau_ceti_worker.Budget.Replay.Keyed.{update_session-eq_ok}
use tau_ceti_worker.Budget.Books.Events.{IsBooked, FitsAll, Booked, append-Booked}

pub taken_back : (c : ℤ) → c ≡ c -ℤ pos 0
taken_back c = omega int_laws

-- After a correction the session is found with the corrected cost.
pub corrected-lookup :
    (t : ℕ) (st st' : State) (id : String) (x : Session) (delta c : ℤ) (a : Amendment)
    → lookup id st.sessions ≡ some x
    → apply t st (Event.correction id delta c a) ≡ ok st'
    → (y : Session) × (lookup id st'.sessions ≡ some y) × (cost_of y ≡ c)
unfolding apply amend
corrected-lookup t st st' id x delta c a found h =
    let (y, again, e) = update_session-eq_ok _ st' id (λ s. amend s c a) h in
    (
      amend y c a,
      rw e (lookup-insert id id (amend y c a) st.sessions ∙ rw (beq_refl id) refl),
      refl,
    )

-- A session with a charged prefix: the correction takes it back, then the settlement fits.
pub prefix-FitsAll :
    (t : ℕ) (st : State) (id : String) (x : Session) (e : Settlement)
    → lookup id st.sessions ≡ some x
    → FitsAll t st (prefix_events id x ++ Event.settle id e ∷ [])
unfolding prefix_events
prefix-FitsAll t st id x e found = elim (Option-cases x.cost) [
  | inl nothing ↦ rw nothing ((x, found, ground arith), λ _ _. tt)
  | inr (c, prefix) ↦ rw prefix (
    (x, found, taken_back c ∙ ap (λ a. a -ℤ pos 0) (ground arith)),
    λ st' p. (corrected-lookup t st st' id x c (pos 0) no_amendment found p, λ _ _. tt),
  )
]

-- The lookup of a state does not change by an accrual.
accrue-sessions :
    (t now : ℕ) (st st' : State)
    → apply t (record st { seq = st.seq + 1 }) (accrue_event st now) ≡ ok st'
    → st'.sessions ≡ st.sessions
unfolding apply accrue_event
accrue-sessions t now st st' h = sym (ap (λ x. x.sessions) (ok-injective _ _ h))

-- A line of an accrual and events that fit the sessions as they were read.
pub accrued-Booked :
    (s : Store) (st : State) (now : ℕ) (es : List Event)
    → Reads s st
    → IsBooked st
    → ((st' : State) → st'.sessions ≡ st.sessions → FitsAll now st' es)
    → Booked (append s st now (accrue_event st now ∷ es))
unfolding accrue_event
accrued-Booked s st now es reads booked fits =
    append-Booked s st now (accrue_event st now ∷ es) reads booked
      (tt, λ st' p. fits st' (accrue-sessions now now st st' p))

-- The state that an operation reads is the one whose books are known.
pub known : (s : Store) (st : State) → Booked s → current s ≡ ok st → Reads s st × IsBooked st
known s st (st₀, reads, booked) h =
    let (again, whole) = Reads-current s st h in
    (again, subst (λ x. IsBooked x) (ok-injective _ _ (sym reads.replayed ∙ again.replayed)) booked)

rate_events-FitsAll : (t : ℕ) (st : State) (rate : Option ℤ) → FitsAll t st (rate_events rate)
rate_events-FitsAll t st none = tt
rate_events-FitsAll t st (some (pos n)) = (tt, λ _ _. tt)
rate_events-FitsAll t st (some (negsuc n)) = tt

target_events-FitsAll :
    (t : ℕ) (st : State) (balance : ℤ) (target rate : Option ℤ)
    → FitsAll t st (target_events balance target ++ rate_events rate)
target_events-FitsAll t st balance none rate = rate_events-FitsAll t st rate
target_events-FitsAll t st balance (some b) rate = (tt, λ st' _. rate_events-FitsAll t st' rate)

configure_events-FitsAll :
    (t now : ℕ) (st st' : State) (grant target rate : Option ℤ)
    → FitsAll t st' (configure_events st now grant target rate)
unfolding configure_events
configure_events-FitsAll t now st st' none target rate = target_events-FitsAll t st' _ target rate
configure_events-FitsAll t now st st' (some a) target rate =
    (tt, λ st'' _. target_events-FitsAll t st'' _ target rate)

-- An operation that reads the state, and then appends or fails.
pub by_current :
    (s s' : Store) (f : State → Result Store)
    → ((st : State) → Reads s st → IsBooked st → f st ≡ ok s' → Booked s')
    → (current s >>= f) ≡ ok s'
    → Booked s
    → Booked s'
by_current s s' f good h b = elim (Result-cases (current s)) [
  | inl (st, e) ↦ let (reads, booked) = known s st b e in good st reads booked (rw e at h)
  | inr (x, e) ↦ absurd (cc (rw e at h))
]

pub written : {a b : Store} → ok a ≡ ok b → Booked a → Booked b
written h line = subst (λ x. Booked x) (ok-injective _ _ h) line

pub configure-Booked :
    (s s' : Store) (now : ℕ) (grant set_grant rate : Option ℤ)
    → configure s now grant set_grant rate ≡ ok s'
    → Booked s
    → Booked s'
unfolding configure
configure-Booked s s' now grant set_grant rate h b =
    by_current s s'
      (λ st.
        ok (append s st now (accrue_event st now ∷ configure_events st now grant set_grant rate)))
      (λ st reads booked done. written done (
        accrued-Booked s st now (configure_events st now grant set_grant rate) reads booked
          (λ st' _. configure_events-FitsAll now now st st' grant set_grant rate)))
      (raise_if-eq_ok (is_negative rate) negative_rate _
        (raise_if-eq_ok (not_positive grant) grant_not_positive _
          (raise_if-eq_ok (is_some grant && is_some set_grant) exclusive_grants _ h).1).1).1
      b

pub cooldown-Booked :
    (s s' : Store) (now : ℕ) (model : String) (delay : ℕ)
    → cooldown s now model delay ≡ ok s'
    → Booked s
    → Booked s'
unfolding cooldown
cooldown-Booked s s' now model delay h b =
    by_current s s'
      (λ st.
        let until = max (or_else (lookup model st.cooldowns) 0) (now + delay) in
        ok (append s st now (accrue_event st now ∷ Event.cooldown model until ∷ [])))
      (λ st reads booked done. written done (
        accrued-Booked s st now
          (Event.cooldown model (max (or_else (lookup model st.cooldowns) 0) (now + delay)) ∷ [])
          reads booked (λ _ _. (tt, λ _ _. tt))))
      h b

pub settle_events-FitsAll :
    (t : ℕ) (st : State) (id : String) (x : Session) (cost : Option ℤ) (outcome : String)
    (remark : Option String) (totals : List (String × ℤ)) (provenance : String)
    (finished : Option ℕ)
    → lookup id st.sessions ≡ some x
    → FitsAll t st (settle_events id x cost outcome remark totals provenance finished)
unfolding settle_events
settle_events-FitsAll t st id x none outcome remark totals provenance finished found =
    ((x, found), λ _ _. tt)
settle_events-FitsAll t st id x (some c) outcome remark totals provenance finished found =
    prefix-FitsAll t st id x _ found

settle_session_of-Booked :
    (s s' : Store) (st : State) (now : ℕ) (id : String) (cost : Option ℤ) (outcome : String)
    (remark : Option String) (totals : List (String × ℤ)) (provenance : String)
    (finished : Option ℕ) (found : Option Session)
    → lookup id st.sessions ≡ found
    → Reads s st
    → IsBooked st
    → settle_session_of s st now id cost outcome remark totals provenance finished found ≡ ok s'
    → Booked s'
unfolding settle_session_of
settle_session_of-Booked s s' st now id cost o m totals p f none e reads booked h = absurd (cc)
settle_session_of-Booked s s' st now id cost o m totals p f (some x) e reads booked h =
    elim (Bool-cases (is_settled x.status)) [
      | inl over ↦ subst (λ y. Booked y) (ground arith) (st, reads, booked)
      | inr open_still ↦ written (rw open_still at h) (
          accrued-Booked s st now _ reads booked (λ st' same.
            settle_events-FitsAll now st' id x cost o m totals p f
              (ap (λ d. lookup id d) same ∙ e)))
    ]

pub settle-Booked :
    (s s' : Store) (now : ℕ) (id : String) (cost : Option ℤ) (outcome : String)
    (remark : Option String) (totals : List (String × ℤ)) (provenance : String)
    (finished : Option ℕ)
    → settle s now id cost outcome remark totals provenance finished ≡ ok s'
    → Booked s
    → Booked s'
unfolding settle
settle-Booked s s' now id cost o m totals p f h b =
    by_current s s'
      (λ st. settle_session_of s st now id cost o m totals p f (lookup id st.sessions))
      (λ st reads booked done.
        settle_session_of-Booked s s' st now id cost o m totals p f (lookup id st.sessions) refl
          reads booked done)
      (raise_if-eq_ok (is_negative cost) negative_cost _ h).1 b
