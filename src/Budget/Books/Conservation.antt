-- ===== src/Budget/Books/Conservation.antt =====
-- No event moves money but those that credit the grant.
use tau_ceti_worker.Prelude.{ℕ, String, List, [], ◌∷◌, string_eq, ◌≡◌, ap, sym, ◌∙◌, inl, inr}
use tau_ceti_worker.Prelude.Int.{ℤ, pos, ◌+ℤ◌, ◌-ℤ◌, int_laws, zero_add}
use tau_ceti_worker.Budget.State.{ok, Result-cases, ok-injective, Session, Event, Record, State}
use tau_ceti_worker.Budget.Ledger.{
  initial, update_session, apply, apply_all, apply_record, replay_from, settle_session,
}
use tau_ceti_worker.Budget.Replay.Keyed.{update_session-eq_ok}

-- What an event credits to the balance from outside.
unfoldable pub credit : Event → ℤ
credit (Event.accrue amount w) = amount
credit (Event.grant delta) = delta
credit (Event.set_grant delta) = delta
credit _ = pos 0

unfoldable pub credits : List Event → ℤ
credits [] = pos 0
credits (e ∷ es) = credit e +ℤ credits es

unfoldable pub credited : List Record → ℤ
credited [] = pos 0
credited (r ∷ rs) = credits r.events +ℤ credited rs

abbrev wealth : State → ℤ
wealth st = st.balance +ℤ st.spent

update_session-wealth :
    (st st' : State) (id : String) (f : Session → Session)
    → update_session st id f ≡ ok st'
    → wealth st' ≡ wealth st
update_session-wealth st st' id f h =
    let (x, found, e) = update_session-eq_ok st st' id f h in ap (λ s. wealth s) e

credit_first : (b s d : ℤ) → b +ℤ d +ℤ s ≡ d +ℤ (b +ℤ s)
credit_first b s d = omega int_laws

moved : (b s d : ℤ) → (b +ℤ d) +ℤ (s -ℤ d) ≡ pos 0 +ℤ (b +ℤ s)
moved b s d = omega int_laws

charged : (b s d : ℤ) → (b -ℤ d) +ℤ (s +ℤ d) ≡ b +ℤ s
charged b s d = omega int_laws

apply-wealth :
    (t : ℕ) (st st' : State) (e : Event)
    → apply t st e ≡ ok st'
    → wealth st' ≡ credit e +ℤ wealth st
unfolding apply credit
apply-wealth t st st' (Event.accrue a w) h =
    sym (ap (λ s. wealth s) (ok-injective _ _ h)) ∙ credit_first st.balance st.spent a
apply-wealth t st st' (Event.grant a) h =
    sym (ap (λ s. wealth s) (ok-injective _ _ h)) ∙ credit_first st.balance st.spent a
apply-wealth t st st' (Event.set_grant a) h =
    sym (ap (λ s. wealth s) (ok-injective _ _ h)) ∙ credit_first st.balance st.spent a
apply-wealth t st st' (Event.correction id delta cost a) h =
    update_session-wealth _ st' id _ h ∙ moved st.balance st.spent delta
apply-wealth t st st' (Event.settle id e) h =
    elim (Result-cases (update_session st id (λ s. settle_session t s e))) [
      | inl (mid, p) ↦
          sym (ap (λ s. wealth s) (ok-injective _ _ (rw p at h)))
          ∙ charged mid.balance mid.spent e.cost
          ∙ update_session-wealth st mid id _ p
          ∙ sym (zero_add (wealth st))
      | inr (x, p) ↦ absurd (cc (rw p at h))
    ]
apply-wealth t st st' (Event.unresolve id o p f b) h =
    update_session-wealth st st' id _ h ∙ sym (zero_add (wealth st))
apply-wealth t st st' _ h =
    sym (ap (λ s. wealth s) (ok-injective _ _ h)) ∙ sym (zero_add (wealth st))

regrouped : (a b c : ℤ) → b +ℤ (a +ℤ c) ≡ a +ℤ b +ℤ c
regrouped a b c = omega int_laws

apply_all-wealth :
    (t : ℕ) (st st' : State) (es : List Event)
    → apply_all t st es ≡ ok st'
    → wealth st' ≡ credits es +ℤ wealth st
unfolding apply_all credits
apply_all-wealth t st st' [] h =
    sym (ap (λ s. wealth s) (ok-injective _ _ h)) ∙ sym (zero_add (wealth st))
apply_all-wealth t st st' (e ∷ es) h = elim (Result-cases (apply t st e)) [
  | inl (mid, p) ↦
      apply_all-wealth t mid st' es (rw p at h)
      ∙ ap (λ x. credits es +ℤ x) (apply-wealth t st mid e p)
      ∙ regrouped (credit e) (credits es) (wealth st)
  | inr (x, p) ↦ absurd (cc (rw p at h))
]

replay_from-wealth :
    (st st' : State) (rs : List Record)
    → replay_from st rs ≡ ok st'
    → wealth st' ≡ credited rs +ℤ wealth st
unfolding replay_from credited apply_record
replay_from-wealth st st' [] h =
    sym (ap (λ s. wealth s) (ok-injective _ _ h)) ∙ sym (zero_add (wealth st))
replay_from-wealth st st' (r ∷ rs) h = elim (Result-cases (apply_record st r)) [
  | inl (mid, p) ↦
      replay_from-wealth mid st' rs (rw p at h)
      ∙ ap (λ x. credited rs +ℤ x)
          (apply_all-wealth r.timestamp (record st { seq = r.seq }) mid r.events p)
      ∙ regrouped (credits r.events) (credited rs) (wealth st)
  | inr (x, p) ↦ absurd (cc (rw p at h))
]

add_zero : (a : ℤ) → a +ℤ (pos 0 +ℤ pos 0) ≡ a
add_zero a = omega int_laws

-- Whatever the ledger holds, if it replays then balance and spending add up to the amounts that
-- its accruals, grants and set-grants credited: settlements and corrections only move money.
pub replay-conserves :
    (rs : List Record) (st : State)
    → replay_from initial rs ≡ ok st
    → st.balance +ℤ st.spent ≡ credited rs
unfolding initial
replay-conserves rs st h = replay_from-wealth initial st rs h ∙ add_zero (credited rs)
