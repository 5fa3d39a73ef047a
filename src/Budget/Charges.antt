-- ===== src/Budget/Charges.antt =====
-- tauceti_worker/budget.py, `settle_receipt`: an invocation is charged by one native receipt.
use tau_ceti_worker.Budget.Estimate.{cost_of}
use tau_ceti_worker.Budget.Evidence.{Receipt, Supervision}
use tau_ceti_worker.Budget.Booking.{settle_receipt}
use tau_ceti_worker.Budget.State.{ok, Store, State, Session}
use tau_ceti_worker.Budget.Replay.Append.{Reads-current}
use tau_ceti_worker.Budget.Ledger.{current}
use tau_ceti_worker.Prelude.{
  subst, Option, some, lookup, String, string_eq, ℕ, ◌≡◌, refl, inl, inr, ◌⊎◌, sym,
}
use tau_ceti_worker.Prelude.Int.{ℤ}
use tau_ceti_worker.Budget.Charged.{book-Outcome}
use tau_ceti_worker.Budget.Acceptance.{Accepted, settle_receipt-eq_ok}

-- An invocation is read at a cost.
abbrev pub Costs : Store → String → ℤ → Type 0
Costs s id c =
    (st : State) × (x : Session) × (current s ≡ ok st)
    × (lookup id st.sessions ≡ some x)
    × (cost_of x ≡ c)

once :
    (s s' s'' : Store) (now now' : ℕ) (r r' : Receipt) (remark remark' : Option String)
    → Accepted s s' now r remark
    → Accepted s' s'' now' r' remark'
    → r'.id ≡ r.id
    → (s'' ≡ s') ⊎ ((c : ℤ) × Costs s r.id c × Costs s' r.id c)
once s s' s'' now now' r r' remark remark' a b same = elim a.outcome [
  | inl (native, kept) ↦ inr (unmoved (sym kept))
  | inr (other, p, totals, lower, good, booked) ↦
      elim (book-Outcome s s' a.state a.session now r remark p totals lower a.read a.found booked) [
        | inl kept ↦ inr (unmoved kept)
        | inr outcome ↦ elim (outcome b.state b.session (Reads-current s' b.state b.read).0 found) [
          | inl native ↦ elim b.outcome [
            | inl (_, kept) ↦ inl kept
            | inr bookable ↦ absurd (cc (bookable.0, native))
          ]
          | inr equal ↦ inr (
            cost_of a.session,
            (a.state, a.session, a.read, a.found, refl),
            (b.state, b.session, b.read, found, equal),
          )
        ]
      ]
]
  where
    found : lookup r.id b.state.sessions ≡ some b.session
    found = rw (← same) b.found

    unmoved : s ≡ s' → (c : ℤ) × Costs s r.id c × Costs s' r.id c
    unmoved kept = (
      cost_of a.session,
      (a.state, a.session, a.read, a.found, refl),
      subst (λ z. Costs z r.id (cost_of a.session)) kept
          (a.state, a.session, a.read, a.found, refl),
    )

-- Two receipts for one invocation, one right after the other, of any contents and at any times,
-- where both are accepted: the second changes nothing, or the first left the invocation at the cost
-- that it had.
pub settle_receipt-settle_receipt :
    (v v' : Supervision) (s s' s'' : Store) (now now' : ℕ) (r r' : Receipt)
    (remark remark' : Option String)
    → settle_receipt v s now r remark ≡ ok s'
    → settle_receipt v' s' now' r' remark' ≡ ok s''
    → r'.id ≡ r.id
    → (s'' ≡ s') ⊎ ((c : ℤ) × Costs s r.id c × Costs s' r.id c)
settle_receipt-settle_receipt v v' s s' s'' now now' r r' remark remark' first second same =
    once s s' s'' now now' r r' remark remark' (settle_receipt-eq_ok v s s' now r remark first)
      (settle_receipt-eq_ok v' s' s'' now' r' remark' second) same
