-- ===== src/Overlap/Exclusion.antt =====
-- A shared lease excludes: what `require` and `acquire` may be trusted for.
use Prim.Native.String.{◌++◌}
use tau_ceti_worker.Prelude.{
  lt→ltb, eq_iff, string_eq, ◌&&◌, ◌∙◌, ltb→lt, ◌==◌, sym, arith, ap, ◌*◌, ◌≢◌, ◌<◌, none, some,
  true, false, ◌≡◌, refl, ℕ, String, Option, Bool,
}
use tau_ceti_worker.Overlap.State.{Failure, Outcome, read, Payload, Git, died, done}
use tau_ceti_worker.Overlap.Lease.{
  take_over, is_some, claim_schema, is_owner, is_ahead, is_claim, ref_of, acquire, checked,
  read_lease, require, Lease, second,
}

pub data Seen (x : Outcome (String × Option Payload)) : Type 0 where
  failed : (e : Failure) → x ≡ died e → Seen x
  absent : (oid : String) → x ≡ done (oid, none) → Seen x
  present : (oid : String) (p : Payload) → x ≡ done (oid, some p) → Seen x

pub Seen-cases : (x : Outcome (String × Option Payload)) → Seen x
Seen-cases (died e) = failed e refl
Seen-cases (done (oid, none)) = absent oid refl
Seen-cases (done (oid, some p)) = present oid p refl

owner_known : (l : Lease) (o : Option String) → is_owner l o ≡ true → o ≡ some l.owner
owner_known l none h = absurd (cc)
owner_known l (some o) h = ap (λ x. some x) ((eq_iff o l.owner).0 h)

expiry_known :
    (now : ℕ) (e : Option ℕ)
    → is_ahead now e ≡ true
    → (expiry : ℕ) × (e ≡ some expiry) × (now < expiry * second)
expiry_known now none h = absurd (cc)
expiry_known now (some e) h = (e, refl, ltb→lt now (e * second) h)

-- What a passed `require` read.
pub record IsHeld {R : Type 0} (git : Git R) (now : ℕ) (l : Lease) (r : R) : Type 0 where
  pub oid : String
  pub payload : Payload
  pub expiry : ℕ
  pub seen : read git r (ref_of l) ≡ done (oid, some payload)
  pub claims : is_claim l payload ≡ true
  pub owned : payload.owner ≡ some l.owner
  pub expires : payload.expires_at ≡ some expiry
  pub ahead : now < expiry * second

abbrev claims_for : String → Payload → Bool
claims_for key p =
    (p.schema == claim_schema && is_some p.owner) && (is_some p.expires_at && p.resource == key)

some_owner : {a b : String} → some a ≡ some b → a ≡ b
some_owner h = cc

same_payload :
    (a b : String) (p q : Payload)
    → ◌≡◌ {A = Outcome (String × Option Payload)} (done (a, some p)) (done (b, some q))
    → p.owner ≡ q.owner
same_payload a b p q h = cc

module _ {R : Type 0} (git : Git R) (others : R → R) where
  pub require-IsHeld :
      (now : ℕ) (l : Lease) (r : R) → (require git others now l r).0 ≡ done tt → IsHeld git now l r
  unfolding require read_lease checked
  require-IsHeld now l r h = elim (Seen-cases (read git r (ref_of l))) [
    | failed e seen ↦ absurd (ground arith)
    | absent oid seen ↦ absurd (ground arith)
    | present oid p seen ↦
        let claims : is_claim l p ≡ true = ground arith in
        let owned : is_owner l p.owner ≡ true = ground arith in
        let ahead : is_ahead now p.expires_at ≡ true = ground arith in
        let (expiry, expires, later) = expiry_known now p.expires_at ahead in
        record {
          oid = oid;
          payload = p;
          expiry = expiry;
          seen = seen;
          claims = claims;
          owned = owner_known l p.owner owned;
          expires = expires;
          ahead = later;
        }
  ]

  refused :
      (later : ℕ) (l : Lease) (r : R) (oid : String) (p : Payload) (expiry : ℕ)
      → read git r (ref_of l) ≡ done (oid, some p)
      → is_claim l p ≡ true
      → p.expires_at ≡ some expiry
      → later < expiry * second
      → acquire git others later l r ≡ (done false, l, r)
  unfolding acquire take_over read_lease checked
  refused later l r oid p expiry seen claims expires early =
      ground (arith, lt→ltb later (expiry * second) early)

  -- While a `require` of one lease passes, no lease of the same key can be acquired before the
  -- expiry that it read: the acquisition answers false and writes nothing.
  pub acquire-held :
      (now : ℕ) (l : Lease) (r : R)
      → (require git others now l r).0 ≡ done tt
      → (expiry : ℕ) × (now < expiry * second)
        × ((later : ℕ) (l' : Lease)
            → l'.key ≡ l.key
            → later < expiry * second
            → acquire git others later l' r ≡ (done false, l', r))
  acquire-held now l r h =
      let held = require-IsHeld now l r h in
      (
        held.expiry,
        held.ahead,
        λ later l' k early.
            refused later l' r held.oid held.payload held.expiry
              (ap (λ x. read git r ("refs/tauceti-claims/" ++ x)) k ∙ held.seen)
              (ap (λ x. claims_for x held.payload) k ∙ held.claims) held.expires early,
      )

  -- Two leases of one key with different owners never both pass `require` on the same shared state,
  -- whatever their clocks say.
  pub require-exclusive :
      (now now' : ℕ) (l l' : Lease) (r : R)
      → l'.key ≡ l.key
      → l'.owner ≢ l.owner
      → (require git others now l r).0 ≡ done tt
      → (require git others now' l' r).0 ≢ done tt
  require-exclusive now now' l l' r k d h h' =
      let a = require-IsHeld now l r h in
      let b = require-IsHeld now' l' r h' in
      d (
        some_owner (
          sym b.owned
          ∙ same_payload b.oid a.oid b.payload a.payload
              (sym b.seen ∙ ap (λ x. read git r ("refs/tauceti-claims/" ++ x)) k ∙ a.seen)
          ∙ a.owned))
