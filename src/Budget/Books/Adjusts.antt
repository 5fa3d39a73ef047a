-- ===== src/Budget/Books/Adjusts.antt =====
-- tauceti_worker/budget.py, `settle_receipt`: corrections of different sessions keep the books.
use tau_ceti_worker.Budget.Books.Events.{FitsAll}
use tau_ceti_worker.Budget.Corrected.{All-append}
use tau_ceti_worker.Budget.Estimate.{cost_of}
use tau_ceti_worker.Budget.Ledger.{apply, amend}
use tau_ceti_worker.Budget.Replay.Keyed.{All, IsKeyed, IsKeyed-values, update_session-eq_ok}
use tau_ceti_worker.Budget.State.{Event, Session, State, ok, Amendment}
use tau_ceti_worker.Prelude.{
  ◌++◌, ◌==◌, ℕ, String, string_eq, Bool, Bool-cases, false, some, List, [], ◌∷◌, Dict, filter,
  values, lookup, lookup-insert, eq_iff, ◌≡◌, inl, inr, refl, arith, ◌∙◌, ap,
}
use tau_ceti_worker.Prelude.Int.{ℤ, ◌-ℤ◌}

-- Sessions of another invocation than `id`, and sessions of as many invocations.
abbrev pub Apart : String → List Session → Type 0
Apart id ps = All (λ p. (p.id == id) ≡ false) ps

abbrev pub DistinctIds : List Session → Type 0
DistinctIds [] = Unit
DistinctIds (p ∷ ps) = Apart p.id ps × DistinctIds ps

abbrev pub Filed : State → Session → Type 0
Filed st p = lookup p.id st.sessions ≡ some p

-- One correction for each session, from the cost that it has.
abbrev pub Adjusts : List Session → List Event → Type 0
Adjusts [] [] = Unit
Adjusts (p ∷ ps) (Event.correction id delta cost a ∷ es) =
    (id ≡ p.id) × (delta ≡ cost_of p -ℤ cost) × Adjusts ps es
Adjusts _ _ = ⊥

pub All-map {ℓ κ μ} :
    {A : Type ℓ} (P : A → Type κ) (Q : A → Type μ) (xs : List A)
    → ((x : A) → P x → Q x)
    → All P xs
    → All Q xs
All-map P Q [] f all = tt
All-map P Q (x ∷ xs) f (p, ps) = (f x p, All-map P Q xs f ps)

pub All-zip {ℓ κ μ ν} :
    {A : Type ℓ} (P : A → Type κ) (Q : A → Type μ) (R : A → Type ν) (xs : List A)
    → ((x : A) → P x → Q x → R x)
    → All P xs
    → All Q xs
    → All R xs
All-zip P Q R [] f ps qs = tt
All-zip P Q R (x ∷ xs) f (p, ps) (q, qs) = (f x p q, All-zip P Q R xs f ps qs)

pub filter-All {ℓ κ} :
    {A : Type ℓ} (P : A → Type κ) (keep : A → Bool) (xs : List A)
    → All P xs
    → All P (filter keep xs)
filter-All P keep [] all = tt
filter-All P keep (x ∷ xs) (p, ps) = elim (Bool-cases (keep x)) [
  | inl kept ↦ rw kept (p, filter-All P keep xs ps)
  | inr dropped ↦ rw dropped (filter-All P keep xs ps)
]

pub filter-DistinctIds :
    (keep : Session → Bool) (ps : List Session) → DistinctIds ps → DistinctIds (filter keep ps)
filter-DistinctIds keep [] d = tt
filter-DistinctIds keep (p ∷ ps) (apart, d) = elim (Bool-cases (keep p)) [
  | inl kept ↦
      rw kept (filter-All (λ q. (q.id == p.id) ≡ false) keep ps apart, filter-DistinctIds keep ps d)
  | inr dropped ↦ rw dropped (filter-DistinctIds keep ps d)
]

pub append-DistinctIds :
    (ps qs : List Session)
    → DistinctIds ps
    → DistinctIds qs
    → All (λ p. Apart p.id qs) ps
    → DistinctIds (ps ++ qs)
append-DistinctIds [] qs d e cross = e
append-DistinctIds (p ∷ ps) qs (apart, d) e (across, cross) = (
  All-append (λ q. (q.id == p.id) ≡ false) ps qs apart across,
  append-DistinctIds ps qs d e cross,
)

pub append-Adjusts :
    (ps qs : List Session) (es fs : List Event)
    → Adjusts ps es
    → Adjusts qs fs
    → Adjusts (ps ++ qs) (es ++ fs)
append-Adjusts [] qs [] fs a b = b
append-Adjusts (p ∷ ps) qs (Event.correction id delta cost c ∷ es) fs (same, exact, a) b =
    (same, exact, append-Adjusts ps qs es fs a b)
append-Adjusts [] qs (e ∷ es) fs a b = absurd a
append-Adjusts (p ∷ ps) qs [] fs a b = absurd a
append-Adjusts (p ∷ ps) qs (e ∷ es) fs a b = absurd a

pub values-DistinctIds : (d : Dict String Session) → IsKeyed d → DistinctIds (values d)
unfolding lookup
values-DistinctIds [] u = tt
values-DistinctIds ((k, s) ∷ d) (same, fresh, u) = (
  All-map (λ q. lookup q.id d ≡ some q) (λ q. (q.id == s.id) ≡ false) (values d)
      (λ q found. ground (arith, eq_iff q.id s.id)) (IsKeyed-values d u),
  values-DistinctIds d u,
)

-- A correction leaves the sessions of the other invocations.
corrected-Filed :
    (t : ℕ) (st st' : State) (id : String) (delta cost : ℤ) (a : Amendment) (k : String)
    → apply t st (Event.correction id delta cost a) ≡ ok st'
    → (k == id) ≡ false
    → lookup k st'.sessions ≡ lookup k st.sessions
unfolding apply
corrected-Filed t st st' id delta cost a k h other =
    let (x, found, e) = update_session-eq_ok _ st' id (λ s. amend s cost a) h in
    rw e (lookup-insert k id (amend x cost a) st.sessions ∙ rw other)

pub Adjusts-FitsAll :
    (t : ℕ) (ps : List Session) (es tail : List Event) (st : State)
    → All (Filed st) ps
    → DistinctIds ps
    → Adjusts ps es
    → ((st' : State)
        → ((k : String) → Apart k ps → lookup k st'.sessions ≡ lookup k st.sessions)
        → FitsAll t st' tail)
    → FitsAll t st (es ++ tail)
Adjusts-FitsAll t [] [] tail st filed d a after = after st (λ k _. refl)
Adjusts-FitsAll t (p ∷ ps) (Event.correction id delta cost c ∷ es) tail st (filed, files) (apart, d)
      (same, exact, a) after =
    (
      (p, ap (λ k. lookup k st.sessions) same ∙ filed, exact),
      λ st' h.
          Adjusts-FitsAll t ps es tail st'
            (All-zip (λ q. (q.id == p.id) ≡ false) (Filed st) (Filed st') ps
              (λ q other found.
                corrected-Filed t st st' id delta cost c q.id h (rw same other) ∙ found)
              apart files)
            d a
            (λ st'' kept. after st'' (λ k far.
              kept k far.1
              ∙ corrected-Filed t st st' id delta cost c k h
                  (ground (arith, eq_iff k id, eq_iff p.id k)))),
    )
Adjusts-FitsAll t [] (e ∷ es) tail st filed d a after = absurd a
Adjusts-FitsAll t (p ∷ ps) [] tail st filed d a after = absurd a
Adjusts-FitsAll t (p ∷ ps) (e ∷ es) tail st filed d a after = absurd a
