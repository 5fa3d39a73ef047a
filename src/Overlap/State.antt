-- ===== src/Overlap/State.antt =====
-- tauceti_worker/overlap_state.py: `State`. Git is a parameter: what its commands answer, and what a
-- push may do to the shared repository. An absent text of a payload is empty.

use tau_ceti_worker.Prelude.{
  string_eq, ◌||◌, false, ◌==◌, true, not, if◌then◌else◌, List, none, some, [], ◌∷◌, ℕ, String,
  Option, Bool,
}

pub record Payload : Type 0 where
  pub schema : String
  pub owner : Option String
  pub resource : String
  pub expires_at : Option ℕ
  pub mathlib_commit : String

pub data Failure : Type 0 where
  command_failed ambiguous_ref malformed_ref malformed_state malformed_cursor : Failure
  invalid_commit push_failed malformed_lease lease_lost : Failure

pub data Outcome {ℓ} (A : Type ℓ) : Type ℓ where
  done : A → Outcome A
  died : Failure → Outcome A

-- The commands on a shared repository in state R. `ls_remote` answers the rows (object, name) or
-- fails; `message` is the JSON object of a commit; `commit_tree` takes the parent and the payload;
-- `push` takes the ref, the object it expects there and the new one, "" for none, and says whether
-- the command reported success.
pub record Git (R : Type 0) : Type 0 where
  pub is_sha : String → Bool
  pub ls_remote : R → String → Option (List (String × String))
  pub message : String → Option Payload
  pub commit_tree : String → Payload → Option String
  pub push : R → String → String → String → Bool × R

module _ {R : Type 0} (git : Git R) where
  -- `State.read`
  unfoldable pub read_rows :
      String → Option (List (String × String)) → Outcome (String × Option Payload)
  read_rows ref none = died command_failed
  read_rows ref (some []) = done ("", none)
  read_rows ref (some ((oid, name) ∷ [])) =
      if not (name == ref) || not (git.is_sha oid)
      then died malformed_ref
      else elim (git.message oid) [
        | none ↦ died malformed_state
        | some payload ↦ done (oid, some payload)
      ]
  read_rows ref (some (row ∷ next ∷ rows)) = died ambiguous_ref

  unfoldable pub read : R → String → Outcome (String × Option Payload)
  unfolding read_rows
  read r ref = read_rows ref (git.ls_remote r ref)

  abbrev pub new_object : String → Option Payload → Option String
  new_object previous none = some ""
  new_object previous (some payload) = git.commit_tree previous payload

  -- A lost response is reconciled by what the ref holds now.
  unfoldable pub reconcile_push : String → String → Outcome (String × Option Payload) → Outcome Bool
  reconcile_push previous new (died e) = died e
  reconcile_push previous new (done (observed, payload)) =
      if observed == new
      then done true
      else if not (observed == previous)
      then done false
      else died push_failed

  -- What the push leaves and answers; `others` is what the other workers do before the read that
  -- reconciles it.
  unfoldable pub push_object :
      (others : R → R) → R → String → String → Option String → Outcome Bool × R
  unfolding reconcile_push read
  push_object others r ref previous none = (died command_failed, r)
  push_object others r ref previous (some new) =
      let (reported, r') = git.push r ref previous new in
      if reported
      then (done true, r')
      else (reconcile_push previous new (read (others r') ref), others r')

  -- `State.cas`
  unfoldable pub cas : (others : R → R) → R → String → String → Option Payload → Outcome Bool × R
  unfolding push_object
  cas others r ref previous payload =
      push_object others r ref previous (new_object previous payload)

  abbrev cursor_ref : String
  cursor_ref = "refs/tauceti-state/mathlib-overlap"

  abbrev cursor_schema : String
  cursor_schema = "tauceti-mathlib-overlap-cursor/v1"

  unfoldable pub cursor_of : Outcome (String × Option Payload) → Outcome (String × String)
  cursor_of (died e) = died e
  cursor_of (done (oid, none)) = done ("", "")
  cursor_of (done (oid, some p)) =
      if not (p.schema == cursor_schema) || not (git.is_sha p.mathlib_commit)
      then died malformed_cursor
      else done (oid, p.mathlib_commit)

  -- `State.cursor`
  unfoldable pub cursor : R → Outcome (String × String)
  unfolding cursor_of read
  cursor r = cursor_of (read r cursor_ref)

  -- `State.advance`
  unfoldable pub advance : (others : R → R) → R → String → String → Outcome Bool × R
  unfolding cas
  advance others r previous mathlib_commit =
      if not (git.is_sha mathlib_commit)
      then (died invalid_commit, r)
      else cas others r cursor_ref previous (
          some (record {
            schema = cursor_schema;
            owner = none;
            resource = "";
            expires_at = none;
            mathlib_commit = mathlib_commit;
          }))
