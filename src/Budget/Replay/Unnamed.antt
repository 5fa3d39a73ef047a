-- ===== src/Budget/Replay/Unnamed.antt =====
-- Lines of the ledger that do not name a session leave it as it was.
use tau_ceti_worker.Prelude.{
  [], insert, Dict, inr, arith, lookup-insert, inl, ◌∷◌, ◌∙◌, sym, ap, ◌++◌, string_eq, not, lookup,
  ◌==◌, ℕ, all, List, String, Bool, true, false, ◌≡◌,
}
use tau_ceti_worker.Budget.State.{Result-cases, ok, ok-injective, Event, Record, State, Session}
use tau_ceti_worker.Budget.Ledger.{
  settle_session, apply, apply_all, apply_record, replay_from, update_session,
}
use tau_ceti_worker.Budget.Replay.Keyed.{update_session-eq_ok}

-- The events that write to the session.
abbrev pub names : String → Event → Bool
names id (Event.accrue amount watermark) = false
names id (Event.grant delta) = false
names id (Event.set_grant delta) = false
names id (Event.correction key delta cost a) = id == key
names id (Event.rate amount) = false
names id (Event.wait w) = false
names id (Event.admit s) = id == s.id
names id (Event.settle key e) = id == key
names id (Event.unresolve key outcome is_provisional finished bound) = id == key
names id (Event.cooldown model until) = false

abbrev pub is_silent : String → Record → Bool
is_silent id r = all (λ e. not (names id e)) r.events

inserted_elsewhere :
    (id key : String) (x : Session) (d : Dict String Session)
    → (id == key) ≡ false
    → lookup id (insert key x d) ≡ lookup id d
inserted_elsewhere id key x d other = ground (arith, lookup-insert id key x d)

updated_elsewhere :
    (st st' : State) (id key : String) (f : Session → Session)
    → (id == key) ≡ false
    → update_session st key f ≡ ok st'
    → lookup id st'.sessions ≡ lookup id st.sessions
updated_elsewhere st st' id key f other h =
    let (x, found, e) = update_session-eq_ok st st' key f h in
    ap (λ y. lookup id y.sessions) e ∙ inserted_elsewhere id key (f x) st.sessions other

apply-unnamed :
    (t : ℕ) (st st' : State) (e : Event) (id : String)
    → names id e ≡ false
    → apply t st e ≡ ok st'
    → lookup id st'.sessions ≡ lookup id st.sessions
unfolding apply
apply-unnamed t st st' (Event.correction key delta cost a) id other h =
    updated_elsewhere _ st' id key _ other h
apply-unnamed t st st' (Event.admit s) id other h =
    ap (λ y. lookup id y.sessions) (sym (ok-injective _ _ h))
    ∙ inserted_elsewhere id s.id s st.sessions other
apply-unnamed t st st' (Event.settle key e) id other h =
    elim (Result-cases (update_session st key (λ s. settle_session t s e))) [
      | inl (mid, p) ↦
          ap (λ y. lookup id y.sessions) (sym (ok-injective _ _ (rw p at h)))
          ∙ updated_elsewhere st mid id key _ other p
      | inr (x, p) ↦ absurd (cc (rw p at h))
    ]
apply-unnamed t st st' (Event.unresolve key o p f b) id other h =
    updated_elsewhere st st' id key _ other h
apply-unnamed t st st' _ id other h = ap (λ y. lookup id y.sessions) (sym (ok-injective _ _ h))

apply_all-unnamed :
    (t : ℕ) (st st' : State) (es : List Event) (id : String)
    → all (λ e. not (names id e)) es ≡ true
    → apply_all t st es ≡ ok st'
    → lookup id st'.sessions ≡ lookup id st.sessions
unfolding apply_all
apply_all-unnamed t st st' [] id silent h =
    ap (λ y. lookup id y.sessions) (sym (ok-injective _ _ h))
apply_all-unnamed t st st' (e ∷ es) id silent h = elim (Result-cases (apply t st e)) [
  | inl (mid, p) ↦
      apply_all-unnamed t mid st' es id (ground arith) (rw p at h)
      ∙ apply-unnamed t st mid e id (ground arith) p
  | inr (x, p) ↦ absurd (cc (rw p at h))
]

pub replay_from-unnamed :
    (st st' : State) (rs : List Record) (id : String)
    → all (is_silent id) rs ≡ true
    → replay_from st rs ≡ ok st'
    → lookup id st'.sessions ≡ lookup id st.sessions
unfolding replay_from apply_record
replay_from-unnamed st st' [] id silent h =
    ap (λ y. lookup id y.sessions) (sym (ok-injective _ _ h))
replay_from-unnamed st st' (r ∷ rs) id silent h = elim (Result-cases (apply_record st r)) [
  | inl (mid, p) ↦
      replay_from-unnamed mid st' rs id (ground arith) (rw p at h)
      ∙ apply_all-unnamed r.timestamp (record st { seq = r.seq }) mid r.events id (ground arith) p
  | inr (x, p) ↦ absurd (cc (rw p at h))
]

-- A longer ledger is replayed by going on from where the shorter one ends.
pub replay_from-resumes :
    (st mid : State) (rs lines : List Record)
    → replay_from st rs ≡ ok mid
    → replay_from st (rs ++ lines) ≡ replay_from mid lines
unfolding replay_from
replay_from-resumes st mid [] lines h = ap (λ y. replay_from y lines) (ok-injective _ _ h)
replay_from-resumes st mid (r ∷ rs) lines h = elim (Result-cases (apply_record st r)) [
  | inl (next, p) ↦ rw p (replay_from-resumes next mid rs lines (rw p at h))
  | inr (x, p) ↦ absurd (cc (rw p at h))
]
