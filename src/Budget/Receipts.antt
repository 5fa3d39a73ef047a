-- ===== src/Budget/Receipts.antt =====
-- tauceti_worker/budget.py, `settle`: a cost receipt is booked once.
use tau_ceti_worker.Budget.Replay.Unnamed.{replay_from-unnamed, replay_from-resumes, is_silent}
use tau_ceti_worker.Budget.Books.Operations.{settle_events-FitsAll, accrued-Booked, known}
use tau_ceti_worker.Budget.Books.Reach.{Reach-Booked, Reach}
use tau_ceti_worker.Budget.Books.Events.{IsBooked, Booked}
use tau_ceti_worker.Budget.Replay.Append.{
  append-Reads, Reads-current, current-Reads, Reads, apply_all-append,
}
use tau_ceti_worker.Budget.Replay.Keyed.{update_session-eq_ok}
use tau_ceti_worker.Budget.Estimate.{cost_of, is_settled}
use tau_ceti_worker.Budget.State.{
  Record, negative_cost, raise_if-eq_ok, ok-injective, conflicting_receipt, ◌>>=◌, err, Store,
  Result-cases, ok, Settlement, Event, Session, State,
}
use tau_ceti_worker.Budget.Settlement.{
  prefix_events, settle_events, is_negative, contradicts, settle_session_of, settle, same_amount,
}
use tau_ceti_worker.Budget.Ledger.{
  initial, replay_from, accrue_event, append, current, update_session, settle_session, apply,
  apply_all,
}
use tau_ceti_worker.Prelude.{
  sym, all, none, ◌+◌, ap, ◌∙◌, subst, if◌then◌else◌, false, Bool-cases, Option, Bool, inr,
  beq_refl, lookup-insert, inl, [], ◌∷◌, ◌++◌, string_eq, some, List, ℕ, lookup, arith, true, ◌≡◌,
  String, refl,
}
use tau_ceti_worker.Prelude.Int.{pos, ltb_ℤ, ℤ}

-- A session that is found settled at an amount.
abbrev SettledAt : State → String → ℤ → Type 0
SettledAt st id c =
    (x : Session) × (lookup id st.sessions ≡ some x)
    × (is_settled x.status ≡ true)
    × (same_amount (cost_of x) c ≡ true)

pub same_amount_refl : (c : ℤ) → same_amount c c ≡ true
same_amount_refl c = ground arith

same_amount_eq : (a b : ℤ) → same_amount a b ≡ true → a ≡ b
same_amount_eq a b h = ground arith

-- A line that ends in a settlement leaves the session settled at its cost.
ends_settled :
    (t : ℕ) (st st' : State) (es : List Event) (id : String) (e : Settlement)
    → apply_all t st (es ++ Event.settle id e ∷ []) ≡ ok st'
    → SettledAt st' id e.cost
unfolding apply_all apply settle_session
ends_settled t st st' es id e h = elim (Result-cases (apply_all t st es)) [
  | inl (mid, p) ↦ elim (Result-cases (update_session mid id (λ s. settle_session t s e))) [
    | inl (last, q) ↦
        let (x, found, written_as) =
          update_session-eq_ok mid last id (λ s. settle_session t s e) q in
        (
          settle_session t x e,
          ground (
            arith,
            rw (apply_all-append t st es (Event.settle id e ∷ []), p, q) at h,
            lookup-insert id id (settle_session t x e) mid.sessions,
            beq_refl id,
          ),
          refl,
          same_amount_refl e.cost,
        )
    | inr (x, q) ↦ absurd (cc (rw (apply_all-append t st es (Event.settle id e ∷ []), p, q) at h))
  ]
  | inr (x, p) ↦ absurd (cc (rw (apply_all-append t st es (Event.settle id e ∷ []), p) at h))
]

settle_session_of-settled :
    (s s' : Store) (st : State) (now : ℕ) (id : String) (c : ℤ) (outcome : String)
    (remark : Option String) (totals : List (String × ℤ)) (provenance : String)
    (finished : Option ℕ) (found : Option Session)
    → lookup id st.sessions ≡ found
    → Reads s st
    → IsBooked st
    → settle_session_of s st now id (some c) outcome remark totals provenance finished found ≡ ok s'
    → (st' : State) × Reads s' st' × (s'.torn ≡ s.torn) × SettledAt st' id c
unfolding settle_session_of
settle_session_of-settled s s' st now id c o m totals p f none e reads booked h = absurd (cc)
settle_session_of-settled s s' st now id c o m totals p f (some x) e reads booked h =
    elim (Bool-cases (is_settled x.status)) [
      | inl over ↦ elim (Bool-cases (contradicts (some c) x)) [
        | inl other ↦ absurd (cc (rw (over, other) at h))
        | inr agrees ↦
            subst (λ y. (st' : State) × Reads y st' × (y.torn ≡ s.torn) × SettledAt st' id c)
              (ok-injective _ _ (rw (over, agrees) at h))
              (st, reads, refl, (x, e, over, ground arith))
      ]
      | inr still ↦
          let es = accrue_event st now ∷ settle_events id x (some c) o m totals p f in
          let (st', line, kept) =
            accrued-Booked s st now (settle_events id x (some c) o m totals p f) reads booked
              (λ mid same.
                settle_events-FitsAll now mid id x (some c) o m totals p f
                  (ap (λ d. lookup id d) same ∙ e)) in
          subst (λ y. (st' : State) × Reads y st' × (y.torn ≡ s.torn) × SettledAt st' id c)
            (ok-injective _ _ (rw still at h))
            (
              st',
              line,
              torn-append s st now es,
              unfold settle_events in
                  ends_settled now (record st { seq = st.seq + 1 }) st'
                    (accrue_event st now ∷ prefix_events id x) id _
                    (append-Reads s st st' now es reads line),
            )
    ]
  where
    torn-append :
        (s : Store) (st : State) (now : ℕ) (es : List Event) → (append s st now es).torn ≡ s.torn
    torn-append s st now es = refl

-- After a settlement the session is settled at its cost.
settle-settled :
    (s s' : Store) (now : ℕ) (id : String) (c : ℤ) (outcome : String) (remark : Option String)
    (totals : List (String × ℤ)) (provenance : String) (finished : Option ℕ)
    → Booked s
    → settle s now id (some c) outcome remark totals provenance finished ≡ ok s'
    → (st' : State) × (current s' ≡ ok st') × (ltb_ℤ c (pos 0) ≡ false) × SettledAt st' id c
unfolding settle
settle-settled s s' now id c o m totals p f b h = elim (Result-cases (current s)) [
  | inl (st, e) ↦
      let (reads, booked) = known s st b e in
      let (st', reads', torn, settled) =
        settle_session_of-settled s s' st now id c o m totals p f (lookup id st.sessions) refl reads
          booked (rw e at guarded.1) in
      (st', current-Reads s' st' reads' (torn ∙ (Reads-current s st e).1), guarded.0, settled)
  | inr (x, e) ↦ absurd (cc (rw e at guarded.1))
]
  where
    guarded :
        (is_negative (some c) ≡ false)
        × ((current s >>= λ st.
              settle_session_of s st now id (some c) o m totals p f (lookup id st.sessions))
            ≡ ok s')
    guarded = raise_if-eq_ok (is_negative (some c)) negative_cost _ h

settle_again :
    (s : Store) (st : State) (now : ℕ) (id : String) (c d : ℤ) (outcome : String)
    (remark : Option String) (totals : List (String × ℤ)) (provenance : String)
    (finished : Option ℕ)
    → current s ≡ ok st
    → ltb_ℤ d (pos 0) ≡ false
    → SettledAt st id c
    → settle s now id (some d) outcome remark totals provenance finished
      ≡ (if same_amount c d then ok s else err conflicting_receipt)
unfolding settle settle_session_of
settle_again s st now id c d o m totals p f e positive (x, found, over, at_c) =
    ground (arith, same_amount_eq (cost_of x) c at_c)

-- A session stays settled while no line names it.
still_settled :
    (s later : Store) (st st' : State) (id : String) (c : ℤ) (lines : List Record)
    → Reads s st
    → Reads later st'
    → later.ledger ≡ s.ledger ++ lines
    → all (is_silent id) lines ≡ true
    → SettledAt st id c
    → SettledAt st' id c
still_settled s later st st' id c lines r r' longer silent (x, found, over, at_c) =
    let onward : replay_from st lines ≡ ok st' =
      sym (replay_from-resumes initial st s.ledger lines r.replayed)
      ∙ ap (λ ls. replay_from initial ls) (sym longer)
      ∙ r'.replayed in
    (x, replay_from-unnamed st st' lines id silent onward ∙ found, over, at_c)

-- In every store that the steps of `Reach` lead to: once an invocation is settled at a cost, and as
-- long as no line that is written afterwards names it and the last line is whole, a second receipt
-- of that cost changes nothing, and a receipt of any other cost that is not negative is refused as
-- conflicting, whatever else it says and whatever the clock shows.
pub settle-settle :
    (blank : String → Bool) (s s' : Store) (now : ℕ) (id : String) (c : ℤ) (outcome : String)
    (remark : Option String) (totals : List (String × ℤ)) (provenance : String)
    (finished : Option ℕ)
    → Reach blank s
    → settle s now id (some c) outcome remark totals provenance finished ≡ ok s'
    → (later : Store) (lines : List Record) → Reach blank later
    → later.torn ≡ false
    → later.ledger ≡ s'.ledger ++ lines
    → all (is_silent id) lines ≡ true
    → (now' : ℕ) (d : ℤ) (outcome' : String) (remark' : Option String) (totals' : List (String × ℤ))
      (provenance' : String) (finished' : Option ℕ)
    → ltb_ℤ d (pos 0) ≡ false
    → settle later now' id (some d) outcome' remark' totals' provenance' finished'
      ≡ (if same_amount c d then ok later else err conflicting_receipt)
settle-settle blank s s' now id c o m totals p f r h later lines r' whole longer silent now' d o' m'
      totals' p' f' positive =
    let (st, e, _, at_c) = settle-settled s s' now id c o m totals p f (Reach-Booked blank s r) h in
    let (st', reads', _) = Reach-Booked blank later r' in
    let settled' =
      still_settled s' later st st' id c lines (Reads-current s' st e).0 reads' longer silent
        at_c in
    settle_again later st' now' id c d o' m' totals' p' f' (current-Reads later st' reads' whole)
      positive settled'
