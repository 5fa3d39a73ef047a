-- ===== src/Recovery/Due.antt =====
-- tauceti_worker/repair_recovery.py: `due`, whether saved work calls for a round. Times are seconds.
use tau_ceti_worker.Prelude.{
  ◌+◌, nat_eq, ◌||◌, string_eq, leb, contains, ◌==◌, ◌&&◌, not, lookup, if◌then◌else◌, any, List,
  Eq, Dict, none, some, true, false, ℕ, String, Option, Bool, [], ◌∷◌,
}

abbrev pub terminal : List String
terminal = "published" ∷ "obsolete" ∷ []

abbrev pub retryable : List String
retryable =
    "invocation-failed" ∷ "recovery-exhausted" ∷ "content-allowance"
    ∷ "publication-revalidation-failed" ∷ []

abbrev pub local_waits : List String
local_waits = "work-policy" ∷ "pr-policy" ∷ "profile-policy" ∷ "roadmap-policy" ∷ []

abbrev pub metadata_waits : List String
metadata_waits =
    "pr-held" ∷ "push-permission" ∷ "ownership-changed" ∷ "maintenance-blocked" ∷ "base-policy"
    ∷ "ownership-policy" ∷ "original-roadmap-policy" ∷ "roadmap-policy" ∷ []

-- The blocked records of an older protocol that a round can migrate.
abbrev pub migratable : List String
migratable =
    "head-rewritten" ∷ "content-allowance" ∷ "publication-head-moved" ∷ "merge-head-changed"
    ∷ "removed-history-reintroduced" ∷ "checkout-missing" ∷ "containment-unavailable"
    ∷ "continuation-cleanup" ∷ "recovery-exhausted" ∷ []

abbrev pub recovery_protocol : ℕ
recovery_protocol = 3

-- The journal of a record; an absent text is "", an absent time 0. `receipt_changed` is whether the
-- receipt of the saved source differs from the one of the handoff.
pub record Journal {ℓ} (V : Type ℓ) : Type ℓ where
  pub offered : Bool
  pub receipt_changed : Bool
  pub retry_at : ℕ
  pub state : String
  pub code : String
  pub protocol : ℕ
  pub mechanical_recheck_at : ℕ
  pub selection : Dict String V
  pub agent : String

-- The cascade of one turn, on its tests; a retry time ahead of now is one that is not timely.
unfoldable pub turn :
    (offered timely changed finished waits present migrates blocked : Bool)
    (rechecked allowance metadata moved roadmap local : Bool)
    → Bool
turn offered timely changed finished waits present migrates blocked rechecked allowance metadata
      moved roadmap local =
    if offered && (timely || changed)
    then true
    else if finished
    then false
    else if waits && not timely
    then false
    else if not present
    then not blocked || migrates
    else if blocked
    then rechecked || ((allowance && timely) || (metadata && timely))
    else if moved
    then true
    else if roadmap && timely
    then true
    else if local
    then false
    else timely

module _ {ℓ} {V : Type ℓ} ⦃e : Eq V⦄ where
  -- `previous` has the key, with another value.
  abbrev pub is_moved : Option V → V → Bool
  is_moved none value = false
  is_moved (some old) value = not (old == value)

  -- `selection_changed`
  unfoldable pub selection_changed : Dict String V → Dict String V → Bool
  selection_changed previous [] = false
  selection_changed previous ((key, value) ∷ current) =
      is_moved (lookup key previous) value || selection_changed previous current

  abbrev pub own_agent : Journal V → String
  own_agent j = if j.agent == "" then "auto" else j.agent

  abbrev pub agent_of : Option String → Journal V → String
  agent_of none j = own_agent j
  agent_of (some agent) j = if agent == "" then own_agent j else agent

  abbrev pub is_rechecked : ℕ → Journal V → Bool
  is_rechecked now j = not (j.mechanical_recheck_at == 0) && leb j.mechanical_recheck_at now

  unfoldable pub has_changed : Option String → Option (String → Dict String V) → Journal V → Bool
  unfolding selection_changed
  has_changed agent none j = false
  has_changed agent (some current) j = selection_changed j.selection (current (agent_of agent j))

  -- Whether the retry time of the record has come.
  abbrev pub is_timely : ℕ → Journal V → Bool
  is_timely now j = leb j.retry_at now

  -- One turn of the loop: whether it returns true or goes on. `current` is the selection of this
  -- round for an agent, if the caller gave one.
  unfoldable pub is_due :
      ℕ → Bool → Option String → Option (String → Dict String V) → Journal V → Bool
  unfolding turn has_changed
  is_due now metadata_due agent current j =
      turn j.offered (is_timely now j) j.receipt_changed (contains j.state terminal)
        (contains j.code retryable) (j.protocol == recovery_protocol) (contains j.code migratable)
        (j.state == "blocked") (is_rechecked now j) (j.code == "content-allowance")
        (contains j.code metadata_waits && metadata_due) (has_changed agent current j)
        (j.code == "roadmap-policy" && metadata_due) (contains j.code local_waits)

  -- `due`; without a state directory there are no records.
  unfoldable pub due :
      Bool → ℕ → ℕ → Option String → Option (String → Dict String V) → List (Journal V) → Bool
  unfolding is_due
  due off now blocked_probe_at agent current records =
      not off && any (is_due now (leb (blocked_probe_at + 1800) now) agent current) records
