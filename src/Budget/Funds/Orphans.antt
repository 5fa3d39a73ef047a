-- ===== src/Budget/Funds/Orphans.antt =====
-- The `unresolved` events of an admission move no money and lose no session.
use tau_ceti_worker.Prelude.{
  ℕ, String, true, false, none, some, List, [], ◌∷◌, values, filter, lookup, insert, lookup-insert,
  string_eq, eq_iff, ◌==◌, ◌≡◌, refl, ap, ◌∙◌, arith, Bool-cases, inl, inr,
}
use tau_ceti_worker.Prelude.Int.{◌+ℤ◌, +ℤ_right_cancel}
use tau_ceti_worker.Prelude.Sums.{sum_by, sum_by-insert_old}
use tau_ceti_worker.Budget.State.{ok, Session, Event, State}
use tau_ceti_worker.Budget.Ledger.{apply, apply_all, unresolve_session}
use tau_ceti_worker.Budget.Estimate.{cost_of, is_settled, every, selected, sessions}
use tau_ceti_worker.Budget.Admission.{World, orphaned_bridge, orphan_events}
use tau_ceti_worker.Budget.Replay.Keyed.{All, IsKeyed, IsKeyed-values}
use tau_ceti_worker.Budget.Funds.Pending.{weight}

-- Same balance, reservations, spending and charges, and no new invocation ID.
pub record SameFunds (a b : State) : Type 0 where
  pub balance : b.balance ≡ a.balance
  pub reserved : sum_by weight b.sessions ≡ sum_by weight a.sessions
  pub spent : b.spent ≡ a.spent
  pub charged : sum_by cost_of b.sessions ≡ sum_by cost_of a.sessions
  pub unused : (k : String) → lookup k a.sessions ≡ none → lookup k b.sessions ≡ none

abbrev pub IsPresent : State → Session → Type 0
IsPresent st x = (y : Session) × (lookup x.id st.sessions ≡ some y) × (is_settled y.status ≡ false)

gone : Session → Session
gone y = unresolve_session y "bridge disappeared" false none none

unresolved_state : State → String → Session → State
unresolved_state st id y = record st { sessions = insert id (gone y) st.sessions }

SameFunds-unresolved_state :
    (st : State) (id : String) (y : Session)
    → lookup id st.sessions ≡ some y
    → is_settled y.status ≡ false
    → SameFunds st (unresolved_state st id y)
unfolding unresolved_state gone unresolve_session
SameFunds-unresolved_state st id y found still = record {
  balance = refl;
  reserved = +ℤ_right_cancel _ _ (weight y) (
      sum_by-insert_old weight id (gone y) y st.sessions found
      ∙ ap (λ t. sum_by weight st.sessions +ℤ t) (ground arith));
  spent = refl;
  charged =
      +ℤ_right_cancel _ _ (cost_of y) (sum_by-insert_old cost_of id (gone y) y st.sessions found);
  unused = λ k h. ground (arith, lookup-insert k id (gone y) st.sessions, eq_iff k id);
}

IsPresent-unresolved_state :
    (st : State) (id : String) (y x : Session)
    → IsPresent st x
    → IsPresent (unresolved_state st id y) x
unfolding unresolved_state gone unresolve_session
IsPresent-unresolved_state st id y x (z, found, still) = elim (Bool-cases (x.id == id)) [
  | inl same ↦ (gone y, ground (arith, lookup-insert x.id id (gone y) st.sessions), refl)
  | inr other ↦ (z, ground (arith, lookup-insert x.id id (gone y) st.sessions), still)
]

All-map :
    (P Q : Session → Type 0)
    → ((x : Session) → P x → Q x)
    → (xs : List Session) → All P xs
    → All Q xs
All-map P Q f [] h = tt
All-map P Q f (x ∷ xs) h = (f x h.0, All-map P Q f xs h.1)

SameFunds-trans : (a b c : State) → SameFunds a b → SameFunds b c → SameFunds a c
SameFunds-trans a b c p q = record {
  balance = q.balance ∙ p.balance;
  reserved = q.reserved ∙ p.reserved;
  spent = q.spent ∙ p.spent;
  charged = q.charged ∙ p.charged;
  unused = λ k h. q.unused k (p.unused k h);
}

apply-gone :
    (t : ℕ) (st : State) (id : String) (y : Session)
    → lookup id st.sessions ≡ some y
    → apply t st (Event.unresolve id "bridge disappeared" false none none)
      ≡ ok (unresolved_state st id y)
unfolding apply unresolved_state gone
apply-gone t st id y found = ground arith

-- Replaying the events of the orphans among present sessions succeeds.
pub orphan_events-SameFunds :
    (w : World) (t now : ℕ) (st : State) (xs : List Session)
    → All (IsPresent st) xs
    → (st' : State) × (apply_all t st (orphan_events w now xs) ≡ ok st') × SameFunds st st'
unfolding orphan_events apply_all
orphan_events-SameFunds w t now st [] h = (
  st,
  refl,
  record { balance = refl; reserved = refl; spent = refl; charged = refl; unused = λ k p. p },
)
orphan_events-SameFunds w t now st (x ∷ xs) ((y, found, still), h) =
    elim (Bool-cases (orphaned_bridge w now x)) [
      | inl orphan ↦
          let mid = unresolved_state st x.id y in
          let (st', run, same) =
            orphan_events-SameFunds w t now mid xs
              (All-map _ _ (λ z. IsPresent-unresolved_state st x.id y z) xs h) in
          (
            st',
            rw orphan (rw (apply-gone t st x.id y found) run),
            SameFunds-trans st mid st' (SameFunds-unresolved_state st x.id y found still) same,
          )
      | inr attended ↦
          let (st', run, same) = orphan_events-SameFunds w t now st xs h in
          (st', rw attended run, same)
    ]

IsPresent-filter :
    (st : State) (xs : List Session)
    → All (λ x. lookup x.id st.sessions ≡ some x) xs
    → All (IsPresent st) (filter (selected (record every { active = true })) xs)
unfolding selected
IsPresent-filter st [] h = tt
IsPresent-filter st (x ∷ xs) (found, h) = elim (Bool-cases (is_settled x.status)) [
  | inl over ↦ rw over (IsPresent-filter st xs h)
  | inr still ↦ rw still ((x, found, still), IsPresent-filter st xs h)
]

-- The active sessions of a replayed state are present.
pub IsPresent-active :
    (st : State)
    → IsKeyed st.sessions
    → All (IsPresent st) (sessions (record every { active = true }) st)
unfolding sessions
IsPresent-active st u = IsPresent-filter st (values st.sessions) (IsKeyed-values st.sessions u)
