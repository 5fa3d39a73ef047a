-- ===== src/Budget/Books/Receiving.antt =====
-- tauceti_worker/budget.py: `settle_receipt` keeps the ledger readable and its books right.
use tau_ceti_worker.Budget.Books.Provider.{
  successors-Adjusts, earlier-Apart, earlier-Part, after-Part, after-Apart, crossing,
}
use tau_ceti_worker.Budget.Books.Clamped.{Clamped, DistinctKeys, clamps-Clamped}
use tau_ceti_worker.Budget.Books.Adjusts.{
  values-DistinctIds, Adjusts-FitsAll, DistinctIds, Apart, Filed, All-map, All-zip, filter-All,
  filter-DistinctIds, append-DistinctIds, append-Adjusts,
}
use tau_ceti_worker.Budget.Books.Events.{FitsAll, IsBooked, Booked}
use tau_ceti_worker.Budget.Books.Operations.{accrued-Booked, corrected-lookup, taken_back}
use tau_ceti_worker.Budget.Booking.{take_back, native_events, settle_native, correct_native}
use tau_ceti_worker.Budget.Corrected.{All-append}
use tau_ceti_worker.Budget.Cumulative.{related, clamps, successors, later_of, earlier, after}
use tau_ceti_worker.Budget.Estimate.{cost_of, is_settled}
use tau_ceti_worker.Budget.Evidence.{Receipt}
use tau_ceti_worker.Budget.Settlement.{no_amendment, same_amount}
use tau_ceti_worker.Budget.Replay.Append.{Reads}
use tau_ceti_worker.Budget.Ledger.{append, accrue_event, initial}
use tau_ceti_worker.Budget.Replay.Keyed.{
  IsKeyed, IsKeyed-values, lookup-IsKeyed, replay_from-IsKeyed, All,
}
use tau_ceti_worker.Budget.State.{
  Settlement, Store, Event, Session, State, Result-cases, ok, ok-injective,
}
use tau_ceti_worker.Prelude.{
  values, ◌++◌, ◌==◌, ℕ, String, string_eq, Bool-cases, false, Option, some, List, [], ◌∷◌, Dict,
  append_nil, lookup, eq_iff, ◌≡◌, inl, inr, refl, arith, ◌∙◌, subst, sym, ap,
}
use tau_ceti_worker.Prelude.Int.{ℤ, ◌-ℤ◌, pos}

pub take_back-FitsAll :
    (t : ℕ) (st : State) (id : String) (x : Session) (e : Settlement)
    → lookup id st.sessions ≡ some x
    → FitsAll t st (take_back id x ++ Event.settle id e ∷ [])
take_back-FitsAll t st id x e found = elim (Bool-cases (same_amount (cost_of x) (pos 0))) [
  | inl free ↦ rw free ((x, found, ground arith), λ _ _. tt)
  | inr charged ↦ rw charged (
    (x, found, taken_back (cost_of x)),
    λ st' h. (corrected-lookup t st st' id x (cost_of x) (pos 0) no_amendment found h, λ _ _. tt),
  )
]

settle_native-FitsAll :
    (t : ℕ) (st : State) (r : Receipt) (remark : Option String) (x : Session)
    (totals : Dict String ℤ) (cost : ℤ)
    → lookup r.id st.sessions ≡ some x
    → FitsAll t st (settle_native r remark x totals cost)
unfolding settle_native
settle_native-FitsAll t st r remark x totals cost found = take_back-FitsAll t st r.id x _ found

-- The events of a receipt that is charged fit the sessions as they were read.
native_events-FitsAll :
    (t : ℕ) (st : State) (r : Receipt) (remark : Option String) (x : Session)
    (ordered : List Session) (totals baseline : Dict String ℤ) (cost : ℤ) (body : List Event)
    → lookup r.id st.sessions ≡ some x
    → x.id ≡ r.id
    → All (Filed st) ordered
    → DistinctIds ordered
    → DistinctKeys totals
    → native_events r remark x ordered totals cost ≡ ok body
    → FitsAll t st ((clamps (earlier r.id ordered) baseline totals).1 ++ body)
unfolding native_events correct_native later_of
native_events-FitsAll t st r remark x ordered totals baseline cost body found named filed distinct
      single h =
    elim (Bool-cases (is_settled x.status)) [
      | inl over ↦ elim (Result-cases (successors totals delta (later_of totals next))) [
        | inl (later, e) ↦
            let (qs, part, adjusts) =
              successors-Adjusts totals delta (later_of totals next) later e in
            let kept = λ (P : Session → Type 0) (all : All P next).
              part.claims P (filter-All P _ next all) in
            subst (λ es. FitsAll t st es)
              (append_nil _ ∙ ap (λ b. fixed ++ b) (ok-injective _ body (rw (over, e) at h)))
              (Adjusts-FitsAll t (c.of ++ x ∷ qs) (fixed ++ correct_native r x totals cost ∷ later)
                [] st
                (All-append (Filed st) c.of (x ∷ qs) c.filed (
                  ap (λ k. lookup k st.sessions) named ∙ found,
                  kept (Filed st) ((after-Part r.id ordered).claims (Filed st) filed),
                ))
                (append-DistinctIds c.of (x ∷ qs) c.distinct
                  (
                    kept (λ q. (q.id == x.id) ≡ false)
                        (subst (λ k. Apart k next) (sym named) (after-Apart r.id ordered distinct)),
                    part.distinct
                        (filter-DistinctIds _ next ((after-Part r.id ordered).distinct distinct)),
                  )
                  (All-map P (λ p. Apart p.id (x ∷ qs)) c.of
                    (λ p claim. (
                      ground (arith, claim.0, eq_iff x.id p.id, eq_iff p.id r.id),
                      kept (λ q. (q.id == p.id) ≡ false) claim.1,
                    ))
                    c.claimed))
                (append-Adjusts c.of (x ∷ qs) fixed _ c.adjusts (sym named, refl, adjusts))
                (λ st' _. tt))
        | inr (why, e) ↦ absurd (cc (rw (over, e) at h))
      ]
      | inr still ↦
          subst (λ b. FitsAll t st (fixed ++ b)) (ok-injective _ body (rw still at h))
            (Adjusts-FitsAll t c.of fixed (settle_native r remark x totals cost) st c.filed
              c.distinct c.adjusts
              (λ st' kept. settle_native-FitsAll t st' r remark x totals cost (
                kept r.id
                  (All-map P (λ p. (p.id == r.id) ≡ false) c.of (λ p claim. claim.0) c.claimed)
                ∙ found)))
    ]
  where
    next : List Session
    next = after r.id ordered

    delta : ℤ
    delta = cost -ℤ cost_of x

    P : Session → Type 0
    P p = ((p.id == r.id) ≡ false) × Apart p.id next

    fixed : List Event
    fixed = (clamps (earlier r.id ordered) baseline totals).1

    c : Clamped P st totals fixed
    c =
        clamps-Clamped P st (earlier r.id ordered)
          (All-zip (λ p. (p.id == r.id) ≡ false) (λ p. Apart p.id next) P (earlier r.id ordered)
            (λ p one other. (one, other)) (earlier-Apart r.id ordered)
            (crossing r.id ordered distinct))
          ((earlier-Part r.id ordered).claims (Filed st) filed)
          ((earlier-Part r.id ordered).distinct distinct) totals baseline single

related-Filed :
    (st : State) (providers : List String) (id : String)
    → IsKeyed st.sessions
    → All (Filed st) (related st providers id)
unfolding related
related-Filed st providers id u =
    filter-All (Filed st) _ (values st.sessions) (IsKeyed-values st.sessions u)

related-DistinctIds :
    (st : State) (providers : List String) (id : String)
    → IsKeyed st.sessions
    → DistinctIds (related st providers id)
unfolding related
related-DistinctIds st providers id u =
    filter-DistinctIds _ (values st.sessions) (values-DistinctIds st.sessions u)

-- The same events fit a state with the same sessions.
pub charged-Booked :
    (s s' : Store) (st : State) (now : ℕ) (r : Receipt) (remark : Option String) (x : Session)
    (providers : List String) (totals baseline : Dict String ℤ) (cost : ℤ) (body : List Event)
    → Reads s st
    → IsBooked st
    → lookup r.id st.sessions ≡ some x
    → DistinctKeys totals
    → native_events r remark x (related st providers r.id) totals cost ≡ ok body
    → append s st now (
        accrue_event st now ∷ (clamps (earlier r.id (related st providers r.id)) baseline totals).1
        ++ body)
      ≡ s'
    → Booked s'
unfolding initial
charged-Booked s s' st now r remark x providers totals baseline cost body reads booked found single
      h line =
    subst (λ z. Booked z) line
      (accrued-Booked s st now (fixed ++ body) reads booked (λ st' same.
        native_events-FitsAll now st' r remark x (related st providers r.id) totals baseline cost
          body (ap (λ d. lookup r.id d) same ∙ found)
          (lookup-IsKeyed r.id x st.sessions keyed found)
          (subst (λ d. All (λ p. lookup p.id d ≡ some p) (related st providers r.id)) (sym same)
            (related-Filed st providers r.id keyed))
          (related-DistinctIds st providers r.id keyed) single h))
  where
    fixed : List Event
    fixed = (clamps (earlier r.id (related st providers r.id)) baseline totals).1

    keyed : IsKeyed st.sessions
    keyed = replay_from-IsKeyed initial st s.ledger tt reads.replayed
