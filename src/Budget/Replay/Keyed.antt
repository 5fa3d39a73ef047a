-- ===== src/Budget/Replay/Keyed.antt =====
-- Every session of a replayed state is filed once, under its own invocation ID.
use tau_ceti_worker.Prelude.{
  ℕ, String, Option, none, some, List, [], ◌∷◌, Dict, values, lookup, insert, lookup-insert,
  string_eq, eq_iff, Bool, Option-cases, inl, inr, ◌≡◌, refl, ◌∙◌, subst, arith,
}
use tau_ceti_worker.Budget.State.{
  Result-cases, ok, ok-injective, LowerBound, Session, Event, Record, State,
}
use tau_ceti_worker.Budget.Ledger.{
  update_session, apply, apply_all, apply_record, replay_from, amend, settle_session,
  unresolve_session,
}

abbrev pub IsKeyed : Dict String Session → Type 0
IsKeyed [] = Unit
IsKeyed ((k, s) ∷ d) = (s.id ≡ k) × (lookup k d ≡ none) × IsKeyed d

pub lookup-IsKeyed :
    (k : String) (s : Session) (d : Dict String Session)
    → IsKeyed d
    → lookup k d ≡ some s
    → s.id ≡ k
unfolding lookup
lookup-IsKeyed k s [] u h = ground arith
lookup-IsKeyed k s ((j, x) ∷ d) u h = ground (arith, lookup-IsKeyed k s d u.2, eq_iff k j)

pub insert-IsKeyed :
    (k : String) (s : Session) (d : Dict String Session)
    → s.id ≡ k
    → IsKeyed d
    → IsKeyed (insert k s d)
unfolding insert lookup
insert-IsKeyed k s [] e u = ground arith
insert-IsKeyed k s ((j, x) ∷ d) e u =
    ground (arith, insert-IsKeyed k s d e u.2, eq_iff k j, eq_iff j k, lookup-insert j k s d)

-- What a successful write to a session has read and written.
pub update_session-eq_ok :
    (st st' : State) (id : String) (f : Session → Session)
    → update_session st id f ≡ ok st'
    → (x : Session) × (lookup id st.sessions ≡ some x)
      × (st' ≡ record st { sessions = insert id (f x) st.sessions })
unfolding update_session
update_session-eq_ok st st' id f h = elim (Option-cases (lookup id st.sessions)) [
  | inl missing ↦ ground arith
  | inr (x, found) ↦ (x, found, ground arith)
]

update_session-IsKeyed :
    (st st' : State) (id : String) (f : Session → Session)
    → ((s : Session) → (f s).id ≡ s.id)
    → IsKeyed st.sessions
    → update_session st id f ≡ ok st'
    → IsKeyed st'.sessions
update_session-IsKeyed st st' id f keep u h =
    let (x, found, e) = update_session-eq_ok st st' id f h in
    rw e (insert-IsKeyed id (f x) st.sessions (keep x ∙ lookup-IsKeyed id x st.sessions u found) u)

unresolve_session-id :
    (s : Session) (o : String) (p : Bool) (t : Option ℕ) (b : Option LowerBound)
    → (unresolve_session s o p t b).id ≡ s.id
unfolding unresolve_session
unresolve_session-id s o p t none = refl
unresolve_session-id s o p t (some b) = refl

apply-IsKeyed :
    (t : ℕ) (st st' : State) (e : Event)
    → IsKeyed st.sessions
    → apply t st e ≡ ok st'
    → IsKeyed st'.sessions
unfolding apply amend settle_session
apply-IsKeyed t st st' (Event.correction id delta cost a) u h =
    update_session-IsKeyed _ st' id (λ s. amend s cost a) (λ s. refl) u h
apply-IsKeyed t st st' (Event.admit s) u h =
    subst (λ x. IsKeyed x.sessions) (ok-injective _ _ h) (insert-IsKeyed s.id s st.sessions refl u)
apply-IsKeyed t st st' (Event.settle id e) u h =
    elim (Result-cases (update_session st id (λ s. settle_session t s e))) [
      | inl (mid, p) ↦
          subst (λ x. IsKeyed x.sessions) (ok-injective _ _ (rw p at h))
            (update_session-IsKeyed st mid id (λ s. settle_session t s e) (λ s. refl) u p)
      | inr (x, p) ↦ absurd (cc (rw p at h))
    ]
apply-IsKeyed t st st' (Event.unresolve id o p f b) u h =
    update_session-IsKeyed st st' id (λ s. unresolve_session s o p f b)
      (λ s. unresolve_session-id s o p f b) u h
apply-IsKeyed t st st' _ u h = subst (λ x. IsKeyed x.sessions) (ok-injective _ _ h) u

apply_all-IsKeyed :
    (t : ℕ) (st st' : State) (es : List Event)
    → IsKeyed st.sessions
    → apply_all t st es ≡ ok st'
    → IsKeyed st'.sessions
unfolding apply_all
apply_all-IsKeyed t st st' [] u h = subst (λ x. IsKeyed x.sessions) (ok-injective _ _ h) u
apply_all-IsKeyed t st st' (e ∷ es) u h = elim (Result-cases (apply t st e)) [
  | inl (mid, p) ↦ apply_all-IsKeyed t mid st' es (apply-IsKeyed t st mid e u p) (rw p at h)
  | inr (x, p) ↦ absurd (cc (rw p at h))
]

pub replay_from-IsKeyed :
    (st st' : State) (rs : List Record)
    → IsKeyed st.sessions
    → replay_from st rs ≡ ok st'
    → IsKeyed st'.sessions
unfolding replay_from apply_record
replay_from-IsKeyed st st' [] u h = subst (λ x. IsKeyed x.sessions) (ok-injective _ _ h) u
replay_from-IsKeyed st st' (r ∷ rs) u h = elim (Result-cases (apply_record st r)) [
  | inl (mid, p) ↦
      replay_from-IsKeyed mid st' rs
        (apply_all-IsKeyed r.timestamp (record st { seq = r.seq }) mid r.events u p) (rw p at h)
  | inr (x, p) ↦ absurd (cc (rw p at h))
]

-- Looking up the ID of a filed session finds that session.
abbrev pub All {ℓ κ} : {A : Type ℓ} → (A → Type κ) → List A → Type κ
All P [] = Unit
All P (x ∷ xs) = P x × All P xs

weaken :
    (k : String) (s : Session) (d : Dict String Session) (xs : List Session)
    → lookup k d ≡ none
    → All (λ x. lookup x.id d ≡ some x) xs
    → All (λ x. lookup x.id ((k, s) ∷ d) ≡ some x) xs
unfolding lookup
weaken k s d [] fresh h = tt
weaken k s d (x ∷ xs) fresh h = (ground (arith, h.0, eq_iff x.id k), weaken k s d xs fresh h.1)

pub IsKeyed-values :
    (d : Dict String Session) → IsKeyed d → All (λ x. lookup x.id d ≡ some x) (values d)
unfolding lookup
IsKeyed-values [] u = tt
IsKeyed-values ((k, s) ∷ d) u =
    (ground (arith, eq_iff s.id k), weaken k s d (values d) u.1 (IsKeyed-values d u.2))
