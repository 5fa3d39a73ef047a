-- ===== src/Overlap/Examples.antt =====
-- A shared repository of one lease: its commands, that they keep to what git documents, and runs.
use tau_ceti_worker.Overlap.Exclusion.{acquire-held, require-exclusive}
use tau_ceti_worker.Overlap.Swap.{acquire-require, cas-true, GitLaws}
use tau_ceti_worker.Prelude.{
  ◌*◌, sym, ◌≢◌, ◌<◌, subst, Bool-cases, beq_refl, ◌&&◌, lookup-insert, insert, string_eq, nat_eq,
  lookup, if◌then◌else◌, eq_iff, ◌==◌, arith, ap, Dict, none, some, true, false, ◌≡◌, refl, ℕ,
  String, Option, Bool, inl, inr, [], ◌∷◌,
}
use tau_ceti_worker.Overlap.State.{
  read_rows, read, new_object, push_object, cas, Payload, Git, done,
}
use tau_ceti_worker.Overlap.Lease.{
  checked, acquired_by, take_over, read_lease, payload_of, claim_schema, require, ref_of, acquire,
  Lease, second,
}

abbrev Refs : Type 0
Refs = Dict String String

abbrev mine : Lease
mine = record {
  key = "k";
  owner = "a/w1/1";
  ttl = 1500;
  acquired = false;
  running = false;
  stopped = false;
  lost = false;
}

abbrev theirs : Lease
theirs = record mine { owner = "b/w2/2" }

abbrev claim : Payload
claim = payload_of mine 0

abbrev or_blank : Option String → String
or_blank none = ""
or_blank (some s) = s

abbrev owner_is : Option String → Bool
owner_is none = false
owner_is (some o) = o == "a/w1/1"

abbrev expiry_is : Option ℕ → Bool
expiry_is none = false
expiry_is (some e) = e == 1500

-- The toy store knows one commit.
abbrev is_known : Payload → Bool
is_known p =
    ((p.schema == claim_schema && owner_is p.owner)
      && (p.resource == "k" && expiry_is p.expires_at))
    && p.mathlib_commit == ""

abbrev message_of : String → Option Payload
message_of oid = if oid == "c1" then some claim else none

abbrev toy : Git Refs
toy = record {
  is_sha = λ oid. oid == "c1";
  ls_remote = λ r ref.
      some (if or_blank (lookup ref r) == "" then [] else (or_blank (lookup ref r), ref) ∷ []);
  message = message_of;
  commit_tree = λ previous p. if is_known p then some "c1" else none;
  push = λ r ref previous new.
      if or_blank (lookup ref r) == previous then (true, insert ref new r) else (false, r);
}

owner_eq : (o : Option String) → owner_is o ≡ true → o ≡ some "a/w1/1"
owner_eq none h = absurd (cc)
owner_eq (some o) h = ap (λ x. some x) ((eq_iff o "a/w1/1").0 h)

expiry_eq : (e : Option ℕ) → expiry_is e ≡ true → e ≡ some 1500
expiry_eq none h = absurd (cc)
expiry_eq (some e) h = ground arith

known_eq : (p : Payload) → is_known p ≡ true → p ≡ claim
known_eq p h =
    let schema : p.schema ≡ claim_schema = (eq_iff p.schema claim_schema).0 (ground arith) in
    let owner = owner_eq p.owner (ground arith) in
    let resource : p.resource ≡ "k" = (eq_iff p.resource "k").0 (ground arith) in
    let expires = expiry_eq p.expires_at (ground arith) in
    let plain : p.mathlib_commit ≡ "" = (eq_iff p.mathlib_commit "").0 (ground arith) in
    λ i. record {
      schema = schema i;
      owner = owner i;
      resource = resource i;
      expires_at = expires i;
      mathlib_commit = plain i;
    }

toy_laws : GitLaws toy
toy_laws = record {
  value = λ r ref. or_blank (lookup ref r);
  listed = λ r ref rows h. ground arith;
  pushed = λ r ref previous new h. ground (arith, lookup-insert ref ref new r, beq_refl ref);
  committed = λ previous p oid h. elim (Bool-cases (is_known p)) [
    | inl k ↦
        let named : "c1" ≡ oid = ground arith in
        subst (λ x. (message_of x ≡ some p) × ((x == "c1") ≡ true) × ((x == "") ≡ false)) named
          (ap (λ x. some x) (sym (known_eq p k)), refl, refl)
    | inr u ↦ absurd (ground arith)
  ];
}

abbrev empty_repo : Refs
empty_repo = []

abbrev claimed : Refs
claimed = (ref_of mine, "c1") ∷ []

cas-true_example :
    (new : String) × (new_object toy "" (some claim) ≡ some new)
    × (toy_laws.value (cas toy (λ r. r) empty_repo (ref_of mine) "" (some claim)).1 (ref_of mine)
        ≡ new)
unfolding cas push_object lookup
cas-true_example = cas-true toy toy_laws (λ r. r) empty_repo (ref_of mine) "" (some claim) refl

acquire-require_example :
    (require toy (λ r. r) 1499000000 (record mine { acquired = true; running = true }) claimed).0
    ≡ done tt
unfolding acquire take_over acquired_by read_lease read read_rows checked cas push_object lookup
    insert
acquire-require_example =
    acquire-require toy toy_laws (λ r. r) 0 mine empty_repo
      (record mine { acquired = true; running = true }) claimed refl refl (("c1", ref_of mine) ∷ [])
      refl 1499000000 (omega arith)

acquire-held_example :
    (expiry : ℕ) × (5000 < expiry * second)
    × ((later : ℕ) (l' : Lease)
        → l'.key ≡ mine.key
        → later < expiry * second
        → acquire toy (λ r. r) later l' claimed ≡ (done false, l', claimed))
unfolding require read_lease read read_rows checked lookup
acquire-held_example = acquire-held toy (λ r. r) 5000 mine claimed refl

different : theirs.owner ≢ mine.owner
different e = ground (arith, eq_iff "b/w2/2" "a/w1/1")

require-exclusive_example : (require toy (λ r. r) 5000 theirs claimed).0 ≢ done tt
unfolding require read_lease read read_rows checked lookup
require-exclusive_example =
    require-exclusive toy (λ r. r) 5000 5000 mine theirs claimed refl different refl
