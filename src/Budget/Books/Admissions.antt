-- ===== src/Budget/Books/Admissions.antt =====
-- Admissions, reconciliations and repairs keep the books.
use tau_ceti_worker.Budget.Queue.{waiting_entry}
use tau_ceti_worker.Budget.Replay.Keyed.{replay_from-IsKeyed}
use tau_ceti_worker.Budget.Funds.Orphans.{IsPresent-active, orphan_events-SameFunds, SameFunds}
use tau_ceti_worker.Budget.Funds.Admitted.{admit-eq_ok, renumbered}
use tau_ceti_worker.Budget.Estimate.{every, sessions, is_settled}
use tau_ceti_worker.Budget.Ledger.{
  numbered, replay_from, apply, apply_all, append, initial, accrued, accrue_event,
}
use tau_ceti_worker.Budget.Replay.Append.{apply_all-append, Reads-append, Reads}
use tau_ceti_worker.Budget.State.{
  nothing_torn, invalid_record, ◌>>=◌, Event, live_bridge, note_required, negative_cost, Waiter,
  raise_if-eq_ok, ok, Session, Store, State,
}
use tau_ceti_worker.Prelude.{
  ◌+◌, subst, false, List, refl, sym, [], ◌++◌, ◌∷◌, ◌∙◌, true, ap, string_eq, inr, ◌&&◌, inl, not,
  Bool-cases, some, none, lookup, ◌≡◌, Option, Bool, String, ℕ,
}
use tau_ceti_worker.Budget.Settlement.{
  repair_events, has_lines, bridge_is_live, is_negative, repair, reconcile_session,
  reconcile_events, reconcile,
}
use tau_ceti_worker.Budget.Admission.{
  is_news, decide, conclude, orphan_events, admitted, refuse, enter, admit, Answer, Request, World,
}
use tau_ceti_worker.Prelude.Int.{ℤ}
use tau_ceti_worker.Budget.Books.Operations.{
  known, written, by_current, accrued-Booked, prefix-FitsAll,
}
use tau_ceti_worker.Budget.Books.Events.{Fits-IsBooked, Fits, IsBooked, FitsAll, Booked}

reconcile_events-FitsAll :
    (blank : String → Bool) (t : ℕ) (st : State) (id : String) (x : Session) (c : ℤ) (note : String)
    → lookup id st.sessions ≡ some x
    → FitsAll t st (reconcile_events blank id x c note)
unfolding reconcile_events
reconcile_events-FitsAll blank t st id x c note found = elim (Bool-cases (is_settled x.status)) [
  | inl over ↦ rw over ((x, found, refl), λ _ _. tt)
  | inr still ↦ rw still (prefix-FitsAll t st id x _ found)
]

reconcile_session-Booked :
    (blank : String → Bool) (w : World) (s s' : Store) (st : State) (now : ℕ) (id : String) (c : ℤ)
    (note : String) (found : Option Session)
    → lookup id st.sessions ≡ found
    → Reads s st
    → IsBooked st
    → reconcile_session blank w s st now id c note found ≡ ok s'
    → Booked s'
unfolding reconcile_session
reconcile_session-Booked blank w s s' st now id c note none e reads booked h = absurd (cc)
reconcile_session-Booked blank w s s' st now id c note (some x) e reads booked h =
    written
      (raise_if-eq_ok (not (is_settled x.status) && bridge_is_live blank w now x) live_bridge _ h).1
      (accrued-Booked s st now (reconcile_events blank id x c note) reads booked (λ st' same.
        reconcile_events-FitsAll blank now st' id x c note (ap (λ d. lookup id d) same ∙ e)))

pub reconcile-Booked :
    (blank : String → Bool) (w : World) (s s' : Store) (now : ℕ) (id : String) (c : ℤ)
    (note : String)
    → reconcile blank w s now id c note ≡ ok s'
    → Booked s
    → Booked s'
unfolding reconcile
reconcile-Booked blank w s s' now id c note h b =
    by_current s s' (λ st. reconcile_session blank w s st now id c note (lookup id st.sessions))
      (λ st reads booked done.
        reconcile_session-Booked blank w s s' st now id c note (lookup id st.sessions) refl reads
          booked done)
      (raise_if-eq_ok (is_negative (some c)) negative_cost _
        (raise_if-eq_ok (blank note) note_required _ h).1).1
      b

fits-repair_events :
    (now : ℕ) (archive fresh : String) (st : State)
    → lookup fresh st.sessions ≡ none
    → FitsAll now st (repair_events now archive fresh)
unfolding repair_events
fits-repair_events now archive fresh st unused = ((unused, refl), λ _ _. tt)

-- A repair starts from the lines that were verified; its session ID is fresh.
pub repair-Booked :
    (blank : String → Bool) (s s' : Store) (now : ℕ) (archive fresh note : String)
    → ((st : State) → Reads s st → lookup fresh st.sessions ≡ none)
    → repair blank s now archive fresh note ≡ ok s'
    → Booked s
    → Booked s'
unfolding repair
repair-Booked blank s s' now archive fresh note unused h (st, reads, booked) =
    written (rw reads.replayed at third) (
      accrued-Booked (record s { torn = false }) st now (repair_events now archive fresh)
        (record { in_order = reads.in_order; replayed = reads.replayed }) booked
        (λ st' same.
          fits-repair_events now archive fresh st'
            (ap (λ d. lookup fresh d) same ∙ unused st reads)))
  where
    third :
        (replay_from initial s.ledger >>= λ x. ok (
          append
            (record s { torn = false })
            x
            now
            (accrue_event x now ∷ repair_events now archive fresh)))
        ≡ ok s'
    third =
        (raise_if-eq_ok (not (numbered 0 s.ledger)) invalid_record _
          (raise_if-eq_ok (not s.torn && has_lines s.ledger) nothing_torn _
            (raise_if-eq_ok (blank note) note_required _ h).1).1).1

pub Booked-ledger : {a b : Store} → a.ledger ≡ b.ledger → Booked a → Booked b
Booked-ledger {a} {b} e (st, reads, booked) =
    (st, record { in_order = rw (← e) reads.in_order; replayed = rw (← e) reads.replayed }, booked)

line-runs :
    (st mid st' : State) (now : ℕ) (orphans : List Event) (e : Event)
    → apply_all now (renumbered st now) orphans ≡ ok mid
    → apply now mid e ≡ ok st'
    → apply_all now (record st { seq = st.seq + 1 }) (accrue_event st now ∷ orphans ++ e ∷ [])
      ≡ ok st'
unfolding apply_all apply accrue_event renumbered accrued
line-runs st mid st' now orphans e run last =
    apply_all-append now (renumbered st now) orphans (e ∷ [])
    ∙ ap (λ x. x >>= λ y. apply_all now y (e ∷ [])) run
    ∙ ap (λ x. x >>= λ y. ok y) last

-- The line of an admission: an accrual, the orphans, and one event that fits.
orphans-Booked :
    (w : World) (s : Store) (st : State) (now : ℕ) (e : Event)
    → Reads s st
    → IsBooked st
    → ((mid : State) → SameFunds (renumbered st now) mid → Fits mid e)
    → Booked (
        append s st now (
          accrue_event st now
            ∷ orphan_events w now (sessions (record every { active = true }) (accrued st now))
          ++ e ∷ []))
unfolding accrued renumbered sessions initial
orphans-Booked w s st now e reads booked fits =
    let (mid, run, same) =
      orphan_events-SameFunds w now now (renumbered st now)
        (sessions (record every { active = true }) (renumbered st now))
        (IsPresent-active (renumbered st now)
          (replay_from-IsKeyed initial st s.ledger tt reads.replayed)) in
    let (st', last, kept) =
      Fits-IsBooked now mid e (fits mid same) (same.spent ∙ booked ∙ sym same.charged) in
    (
      st',
      Reads-append s st st' now _ reads (
          line-runs st mid st' now
            (orphan_events w now (sessions (record every { active = true }) (renumbered st now))) e
            run last),
      kept,
    )

refuse-Booked :
    (w : World) (s : Store) (st : State) (now : ℕ) (r : Request) (previous : Option Waiter)
    (reason : String) (amount : ℤ)
    → Reads s st
    → IsBooked st
    → Booked (
        refuse s st now r previous
          (orphan_events w now (sessions (record every { active = true }) (accrued st now)))
          reason
          amount)
unfolding refuse
refuse-Booked w s st now r previous reason amount reads booked =
    elim (Bool-cases (is_news previous reason orphans)) [
      | inl news ↦ rw news (
          Booked-ledger refl
            (orphans-Booked w s st now (Event.wait entry) reads booked (λ mid same. tt)))
      | inr old ↦ rw old (Booked-ledger refl (st, reads, booked))
    ]
  where
    orphans : List Event
    orphans = orphan_events w now (sessions (record every { active = true }) (accrued st now))

    entry : Waiter
    entry = waiting_entry r.worker r.model r.ticket now previous reason amount

enter-Booked :
    (w : World) (s : Store) (st : State) (now : ℕ) (r : Request) (amount : ℤ)
    → lookup r.invocation st.sessions ≡ none
    → Reads s st
    → IsBooked st
    → Booked (
        enter s st now r
          (orphan_events w now (sessions (record every { active = true }) (accrued st now)))
          amount)
unfolding enter admitted renumbered accrued
enter-Booked w s st now r amount fresh reads booked = Booked-ledger refl (
    orphans-Booked w s st now (Event.admit (admitted r now amount)) reads booked
      (λ mid same. (same.unused r.invocation fresh, refl)))

conclude-Booked :
    (w : World) (s : Store) (st : State) (now : ℕ) (r : Request) (previous : Option Waiter)
    (amount balance : ℤ) (reason : Option String)
    → lookup r.invocation st.sessions ≡ none
    → Reads s st
    → IsBooked st
    → Booked
        (conclude s st now r previous
          (orphan_events w now (sessions (record every { active = true }) (accrued st now)))
          amount
          balance
          reason).0
unfolding conclude
conclude-Booked w s st now r previous amount balance (some reason) fresh reads booked =
    refuse-Booked w s st now r previous reason amount reads booked
conclude-Booked w s st now r previous amount balance none fresh reads booked =
    enter-Booked w s st now r amount fresh reads booked

decide-Booked :
    (w : World) (s : Store) (st : State) (now : ℕ) (r : Request)
    → lookup r.invocation st.sessions ≡ none
    → Reads s st
    → IsBooked st
    → Booked (decide w s st now r).0
unfolding decide
decide-Booked w s st now r fresh reads booked =
    conclude-Booked w s st now r _ _ _ _ fresh reads booked

-- Allowed or refused, an admission keeps the books.
pub admit-Booked :
    (w : World) (s s' : Store) (now : ℕ) (r : Request) (answer : Answer)
    → admit w s now r ≡ ok (s', answer)
    → Booked s
    → Booked s'
admit-Booked w s s' now r answer h b =
    let (st, now_is, fresh, decided) = admit-eq_ok w s now r (s', answer) h in
    let (reads, booked) = known s st b now_is in
    subst (λ x. Booked x) (ap (λ x. x.0) decided) (decide-Booked w s st now r fresh reads booked)
