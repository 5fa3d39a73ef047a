-- ===== src/Budget/Funds/Admitted.antt =====
-- An allowed admission leaves a ledger that replays, with its reservation covered.
use tau_ceti_worker.Prelude.{
  ℕ, ◌+◌, String, true, false, Option, none, some, List, [], ◌∷◌, ◌++◌, lookup, insert, erase,
  string_eq, ◌≡◌, refl, sym, ap, subst, subst₂, map, filter, ◌∙◌, arith, Option-cases, inl, inr,
}
use tau_ceti_worker.Prelude.Int.{ℤ, ◌+ℤ◌, ◌-ℤ◌, ◌≤ℤ◌, ltb_ℤ, int_laws, le_of_not_ltb_ℤ}
use tau_ceti_worker.Prelude.Sums.{sum_by-insert_new}
use tau_ceti_worker.Budget.State.{ok, ◌>>=◌, Session, Waiter, Event, State, Store, Result-cases}
use tau_ceti_worker.Budget.Ledger.{initial, current, apply, apply_all, accrued, accrue_event}
use tau_ceti_worker.Budget.Estimate.{every, sessions, estimate, is_active}
use tau_ceti_worker.Budget.Queue.{previous_of, first_waiter, waiting_state}
use tau_ceti_worker.Budget.Admission.{
  World, Request, Answer, allowed, pending, total_held, admitted, refusal, conclude, enter, decide,
  admit, orphan_events, mark_orphan,
}
use tau_ceti_worker.Budget.Replay.Append.{
  Reads, Reads-current, current-Reads, Reads-append, apply_all-append,
}
use tau_ceti_worker.Budget.Replay.Keyed.{replay_from-IsKeyed}
use tau_ceti_worker.Budget.Funds.Pending.{weight, pending-eq-sum}
use tau_ceti_worker.Budget.Funds.Orphans.{SameFunds, orphan_events-SameFunds, IsPresent-active}

-- The guards that a successful `admit` has passed, and the state that it decided on.
pub admit-eq_ok :
    (w : World) (s : Store) (now : ℕ) (r : Request) (out : Store × Answer)
    → admit w s now r ≡ ok out
    → (st : State) × (current s ≡ ok st)
      × (lookup r.invocation st.sessions ≡ none)
      × (decide w s st now r ≡ out)
unfolding admit
admit-eq_ok w s now r out h = elim (Result-cases (current s)) [
  | inl (st, e) ↦ elim (Option-cases (lookup r.invocation st.sessions)) [
    | inl fresh ↦ (st, e, fresh, ground arith)
    | inr (x, used) ↦ ground arith
  ]
  | inr (x, e) ↦ ground arith
]

-- Whoever is not refused has the estimate available.
refusal-eq_none :
    (st : State) (now : ℕ) (r : Request) (active live : List Session) (priced : List ℤ × ℤ)
    (available : ℤ) (first : Option Waiter)
    → refusal st now r active live priced available first ≡ none
    → ltb_ℤ available priced.1 ≡ false
unfolding refusal
refusal-eq_none st now r active live priced available first h = ground arith

conclude-allowed :
    (s s' : Store) (st : State) (now : ℕ) (r : Request) (previous : Option Waiter)
    (orphans : List Event) (amount balance a : ℤ) (reason : Option String)
    → conclude s st now r previous orphans amount balance reason ≡ (s', allowed a)
    → (reason ≡ none) × (amount ≡ a) × (s' ≡ enter s st now r orphans amount)
unfolding conclude
conclude-allowed s s' st now r previous orphans amount balance a none h = ground arith
conclude-allowed s s' st now r previous orphans amount balance a (some x) h = ground arith

-- The state that a replay finds after an admission: `mid` has the orphans marked.
entered : State → Request → ℕ → ℤ → State
entered mid r now amount = record mid {
  sessions = insert r.invocation (admitted r now amount) mid.sessions;
  waiting = erase r.worker mid.waiting;
}

unfoldable pub renumbered : State → ℕ → State
renumbered st now = record (accrued st now) { seq = st.seq + 1 }

entry : State → ℕ → Request → List Event → ℤ → List Event
entry st now r orphans amount =
    accrue_event st now ∷ orphans ++ Event.admit (admitted r now amount) ∷ []

entry-runs :
    (st mid : State) (now : ℕ) (r : Request) (orphans : List Event) (amount : ℤ)
    → apply_all now (renumbered st now) orphans ≡ ok mid
    → apply_all now (record st { seq = st.seq + 1 }) (entry st now r orphans amount)
      ≡ ok (entered mid r now amount)
unfolding apply_all apply accrue_event entry entered renumbered accrued admitted
entry-runs st mid now r orphans amount run =
    apply_all-append now (renumbered st now) orphans (Event.admit (admitted r now amount) ∷ [])
    ∙ ap (λ x. x >>= λ y. apply_all now y (Event.admit (admitted r now amount) ∷ [])) run

Reads-enter :
    (s : Store) (st st' : State) (now : ℕ) (r : Request) (orphans : List Event) (amount : ℤ)
    → Reads s st
    → apply_all now (record st { seq = st.seq + 1 }) (entry st now r orphans amount) ≡ ok st'
    → Reads (enter s st now r orphans amount) st'
unfolding enter entry
Reads-enter s st st' now r orphans amount reads run =
    let line = Reads-append s st st' now (entry st now r orphans amount) reads run in
    record { in_order = line.in_order; replayed = line.replayed }

-- Replaying the line that an admission appends.
entered-replays :
    (w : World) (s : Store) (st : State) (now : ℕ) (r : Request) (amount : ℤ)
    → Reads s st
    → (mid : State) × SameFunds (renumbered st now) mid
      × Reads
          (enter s st now r
            (orphan_events w now (sessions (record every { active = true }) (accrued st now)))
            amount)
          (entered mid r now amount)
unfolding accrued sessions renumbered initial
entered-replays w s st now r amount reads =
    let active = sessions (record every { active = true }) (renumbered st now) in
    let (mid, run, same) = orphan_events-SameFunds w now now (renumbered st now) active (
      IsPresent-active (renumbered st now)
        (replay_from-IsKeyed initial st s.ledger tt reads.replayed)) in
    (
      mid,
      same,
      Reads-enter s st _ now r (orphan_events w now active) amount reads
          (entry-runs st mid now r (orphan_events w now active) amount run),
    )

-- What is held after the admission: what was held, and the estimate.
pending-entered :
    (st mid : State) (now : ℕ) (r : Request) (amount : ℤ)
    → SameFunds (renumbered st now) mid
    → lookup r.invocation st.sessions ≡ none
    → pending (entered mid r now amount) ≡ pending (accrued st now) +ℤ amount
unfolding entered renumbered accrued admitted
pending-entered st mid now r amount same fresh =
    pending-eq-sum (entered mid r now amount)
    ∙ sum_by-insert_new weight r.invocation (admitted r now amount) mid.sessions
        (same.unused r.invocation fresh)
    ∙ ap (λ t. t +ℤ amount) (same.reserved ∙ sym (pending-eq-sum (accrued st now)))

covered :
    (balance held amount : ℤ) → ltb_ℤ (balance -ℤ held) amount ≡ false → held +ℤ amount ≤ℤ balance
covered balance held amount h = omega (int_laws, le_of_not_ltb_ℤ (balance -ℤ held) amount h)

-- What `admit` decided on, when it allowed the invocation.
decide-allowed :
    (w : World) (s s' : Store) (st : State) (now : ℕ) (r : Request) (a : ℤ)
    → decide w s st now r ≡ (s', allowed a)
    → let active = sessions (record every { active = true }) (accrued st now) in
      (ltb_ℤ ((accrued st now).balance -ℤ total_held active) a ≡ false)
      × (s' ≡ enter s st now r (orphan_events w now active) a)
unfolding decide
decide-allowed w s s' st now r a h =
    let acc = accrued st now in
    let active = sessions (record every { active = true }) acc in
    let marked = map (mark_orphan w now) active in
    let live = filter (λ x. is_active x.status) marked in
    let priced = estimate acc r.model (some r.phase) true in
    let queue = waiting_state s acc in
    let first = first_waiter now r.model queue in
    let available = acc.balance -ℤ total_held active in
    let (passed, amount, entering) =
      conclude-allowed s s' st now r (previous_of now (lookup r.worker queue))
        (orphan_events w now active) priced.1 acc.balance a
        (refusal acc now r marked live priced available first) h in
    (
      subst (λ x. ltb_ℤ available x ≡ false) amount
          (refusal-eq_none acc now r marked live priced available first passed),
      entering ∙ ap (λ x. enter s st now r (orphan_events w now active) x) amount,
    )

torn-enter :
    (s : Store) (st : State) (now : ℕ) (r : Request) (orphans : List Event) (a : ℤ)
    → (enter s st now r orphans a).torn ≡ s.torn
unfolding enter
torn-enter s st now r orphans a = refl

balance-entered :
    (st mid : State) (now : ℕ) (r : Request) (a : ℤ)
    → SameFunds (renumbered st now) mid
    → (entered mid r now a).balance ≡ (accrued st now).balance
unfolding entered renumbered
balance-entered st mid now r a same = same.balance

-- An allowed admission leaves a ledger that still replays, with the balance at least the amount
-- that all unsettled sessions hold back, the new one included.
pub admit-covered :
    (w : World) (s s' : Store) (now : ℕ) (r : Request) (a : ℤ)
    → admit w s now r ≡ ok (s', allowed a)
    → (st : State) × (current s' ≡ ok st) × (pending st ≤ℤ st.balance)
admit-covered w s s' now r a h =
    let (st, now_is, fresh, decided) = admit-eq_ok w s now r (s', allowed a) h in
    let (reads, whole) = Reads-current s st now_is in
    let (enough, entering) = decide-allowed w s s' st now r a decided in
    let (mid, same, line) = entered-replays w s st now r a reads in
    let st' = entered mid r now a in
    (
      st',
      subst (λ x. current x ≡ ok st') (sym entering)
          (current-Reads _ st' line (torn-enter s st now r _ a ∙ whole)),
      subst₂ (λ x y. x ≤ℤ y) (sym (pending-entered st mid now r a same fresh))
          (sym (balance-entered st mid now r a same)) (covered _ _ a (unfold pending in enough)),
    )
