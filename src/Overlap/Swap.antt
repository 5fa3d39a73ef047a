-- ===== src/Overlap/Swap.antt =====
-- The compare-and-swap of overlap_state.py, over what git documents of its commands.
use tau_ceti_worker.Overlap.Lease.{
  in_force, take_over, checked, read_lease, payload_of, acquired_by, require, second, ref_of,
  acquire, Lease,
}
use tau_ceti_worker.Prelude.{
  lt→ltb, beq_refl, Bool, ◌*◌, ◌+◌, ◌/◌, ◌<◌, ℕ, ◌∙◌, sym, eq_iff, ap, string_eq, arith, Bool-cases,
  ◌==◌, Option-cases, if◌then◌else◌, List, some, true, false, ◌≡◌, String, Option, inl, inr, [],
  ◌∷◌,
}
use tau_ceti_worker.Overlap.State.{
  new_object, died, Outcome, reconcile_push, push_object, cas, Payload, read_rows, read, Git, done,
}

-- What git documents: `value r ref` is the object that the ref holds, "" for none; a listing shows
-- it; a push that reports success replaced it; a commit has a name and keeps its message.
pub record GitLaws {R : Type 0} (git : Git R) : Type 0 where
  pub value : R → String → String
  pub listed :
      (r : R) (ref : String) (rows : List (String × String))
      → git.ls_remote r ref ≡ some rows
      → rows ≡ (if value r ref == "" then [] else (value r ref, ref) ∷ [])
  pub pushed :
      (r : R) (ref previous new : String)
      → (git.push r ref previous new).0 ≡ true
      → value (git.push r ref previous new).1 ref ≡ new
  pub committed :
      (previous : String) (p : Payload) (oid : String)
      → git.commit_tree previous p ≡ some oid
      → (git.message oid ≡ some p) × (git.is_sha oid ≡ true) × ((oid == "") ≡ false)

module _ {R : Type 0} (git : Git R) (laws : GitLaws git) where
  rows_value :
      (ref v : String) (oid : String) (p : Option Payload)
      → read_rows git ref (some (if v == "" then [] else (v, ref) ∷ [])) ≡ done (oid, p)
      → v ≡ oid
  unfolding read_rows
  rows_value ref v oid p h = elim (Bool-cases (v == "")) [
    | inl blank ↦ ground (arith, eq_iff v "")
    | inr named ↦ elim (Option-cases (git.message v)) [
      | inl missing ↦ ground arith
      | inr (q, e) ↦ ground arith
    ]
  ]

  read_value :
      (r : R) (ref oid : String) (p : Option Payload)
      → read git r ref ≡ done (oid, p)
      → laws.value r ref ≡ oid
  unfolding read
  read_value r ref oid p h = elim (Option-cases (git.ls_remote r ref)) [
    | inl broken ↦ absurd (ground arith)
    | inr (rows, e) ↦ rows_value ref (laws.value r ref) oid p (
        ap (λ x. read_rows git ref (some x)) (sym (laws.listed r ref rows e))
        ∙ ap (λ x. read_rows git ref x) (sym e)
        ∙ h)
  ]

  reconciled :
      (previous new : String) (x : Outcome (String × Option Payload))
      → reconcile_push git previous new x ≡ done true
      → (p : Option Payload) × (x ≡ done (new, p))
  unfolding reconcile_push
  reconciled previous new (died e) h = absurd (cc)
  reconciled previous new (done (observed, p)) h =
      (p, ap (λ y. done (y, p)) ((eq_iff observed new).0 (ground (arith))))

  module _ (others : R → R) where
    push_object-true :
        (r : R) (ref previous new : String)
        → (push_object git others r ref previous (some new)).0 ≡ done true
        → laws.value (push_object git others r ref previous (some new)).1 ref ≡ new
    unfolding push_object
    push_object-true r ref previous new h = elim (Bool-cases (git.push r ref previous new).0) [
      | inl reported ↦ rw reported (laws.pushed r ref previous new reported)
      | inr lost ↦
          let (p, e) =
            reconciled previous new (read git (others (git.push r ref previous new).1) ref)
              (ground arith) in
          rw lost (read_value (others (git.push r ref previous new).1) ref new p e)
    ]

    -- A compare-and-swap that answers true leaves the new object at the ref, even if the response of
    -- the push was lost and others wrote before it was reconciled.
    pub cas-true :
        (r : R) (ref previous : String) (payload : Option Payload)
        → (cas git others r ref previous payload).0 ≡ done true
        → (new : String) × (new_object git previous payload ≡ some new)
          × (laws.value (cas git others r ref previous payload).1 ref ≡ new)
    unfolding cas
    cas-true r ref previous payload h = elim (Option-cases (new_object git previous payload)) [
      | inl broken ↦ absurd (unfold push_object in ground arith)
      | inr (new, e) ↦ (
        new,
        e,
        ap (λ y. laws.value (push_object git others r ref previous y).1 ref) e
            ∙ push_object-true r ref previous new
                (ap (λ y. (push_object git others r ref previous y).0) (sym e) ∙ h),
      )
    ]

    -- What an acquisition that answers true did.
    inverted :
        (l : Lease) (x : Outcome Bool × R) (l' : Lease) (r' : R)
        → acquired_by git others l x ≡ (done true, l', r')
        → (x ≡ (done true, r')) × (l' ≡ record l { acquired = true; running = true })
    unfolding acquired_by
    inverted l (died e, r) l' r' h = absurd (cc)
    inverted l (done false, r) l' r' h = absurd (cc)
    inverted l (done true, r) l' r' h = (ap (λ y. (done true, y.2)) h, sym (ap (λ y. y.1) h))

    taken :
        (now : ℕ) (l : Lease) (r : R) (x : Outcome (String × Option Payload)) (l' : Lease) (r' : R)
        → take_over git others now l r x ≡ (done true, l', r')
        → (oid : String) × (cas git others r (ref_of l) oid (some (payload_of l now))
            ≡ (done true, r'))
          × (l' ≡ record l { acquired = true; running = true })
    unfolding take_over
    taken now l r (died e) l' r' h = absurd (cc)
    taken now l r (done (oid, p)) l' r' h = elim (Bool-cases (in_force now p)) [
      | inl held ↦ absurd (ground arith)
      | inr free ↦
          let (swap, same) =
            inverted l (cas git others r (ref_of l) oid (some (payload_of l now))) l' r'
              (ground arith) in
          (oid, swap, same)
    ]

    swapped :
        (now : ℕ) (l : Lease) (r : R) (l' : Lease) (r' : R)
        → acquire git others now l r ≡ (done true, l', r')
        → (oid : String) × (cas git others r (ref_of l) oid (some (payload_of l now))
            ≡ (done true, r'))
          × (l' ≡ record l { acquired = true; running = true })
    unfolding acquire
    swapped now l r l' r' h = taken now l r (read_lease git others l r) l' r' h

    reads_back :
        (l : Lease) (r : R) (now : ℕ) (oid new : String) (rows : List (String × String))
        → git.commit_tree oid (payload_of l now) ≡ some new
        → laws.value r (ref_of l) ≡ new
        → git.ls_remote r (ref_of l) ≡ some rows
        → read git r (ref_of l) ≡ done (new, some (payload_of l now))
    unfolding read read_rows
    reads_back l r now oid new rows made held e =
        let (message, sha, named) = laws.committed oid (payload_of l now) new made in
        let shown = laws.listed r (ref_of l) rows e in
        let one : rows ≡ (new, ref_of l) ∷ [] = ground arith in
        ap (λ x. read_rows git (ref_of l) x) (e ∙ ap (λ x. some x) one)
        ∙ ground (arith, beq_refl (ref_of l))

    passes :
        (l : Lease) (r : R) (now later : ℕ) (new : String)
        → l.lost ≡ false
        → read git r (ref_of l) ≡ done (new, some (payload_of l now))
        → later < (now / second + l.ttl) * second
        → (require git others later l r).0 ≡ done tt
    unfolding require read_lease checked
    passes l r now later new kept seen early = ground (
      arith,
      beq_refl l.owner,
      beq_refl l.key,
      lt→ltb later ((now / second + l.ttl) * second) early,
    )

    -- After an acquisition that answers true, a `require` passes until the lease's time is over, if
    -- the lease was not lost before and the listing of the shared repository succeeds.
    pub acquire-require :
        (now : ℕ) (l : Lease) (r : R) (l' : Lease) (r' : R)
        → l.lost ≡ false
        → acquire git others now l r ≡ (done true, l', r')
        → (rows : List (String × String)) → git.ls_remote r' (ref_of l) ≡ some rows
        → (later : ℕ) → later < (now / second + l.ttl) * second
        → (require git others later l' r').0 ≡ done tt
    acquire-require now l r l' r' kept h rows e later early =
        let (oid, swap, same) = swapped now l r l' r' h in
        let (new, made, held) =
          cas-true r (ref_of l) oid (some (payload_of l now)) (ap (λ x. x.0) swap) in
        let held' : laws.value r' (ref_of l) ≡ new =
          ap (λ x. laws.value x.1 (ref_of l)) (sym swap) ∙ held in
        ap (λ x. (require git others later x r').0) same
        ∙ passes (record l { acquired = true; running = true }) r' now later new kept
            (reads_back l r' now oid new rows made held' e) early
