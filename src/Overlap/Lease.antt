-- ===== src/Overlap/Lease.antt =====
-- tauceti_worker/overlap_state.py: `Lease`. Times are whole microseconds, an expiry whole seconds;
-- one operation reads the clock once.
use tau_ceti_worker.Prelude.{
  ◌||◌, ◌+◌, not, ◌/◌, ◌*◌, ◌&&◌, string_eq, if◌then◌else◌, ◌==◌, ltb, none, some, true, false, ℕ,
  Option, Bool,
}
use tau_ceti_worker.Overlap.State.{
  malformed_lease, lease_lost, cas, read, Payload, Outcome, Git, died, done,
}
use Prim.Native.String.{String, ◌++◌}

abbrev pub second : ℕ
second = 1000000

-- `running` is the heartbeat thread, `stopped` its stop event, `lost` its lost event.
pub record Lease : Type 0 where
  pub key : String
  pub owner : String
  pub ttl : ℕ
  pub acquired : Bool
  pub running : Bool
  pub stopped : Bool
  pub lost : Bool

abbrev pub claim_schema : String
claim_schema = "tauceti-claim/v1"

-- `Lease.ref` and `Lease._payload`
abbrev pub ref_of : Lease → String
ref_of l = "refs/tauceti-claims/" ++ l.key

abbrev pub payload_of : Lease → ℕ → Payload
payload_of l now = record {
  schema = claim_schema;
  owner = some l.owner;
  resource = l.key;
  expires_at = some (now / second + l.ttl);
  mathlib_commit = "";
}

abbrev pub is_some {ℓ} : {A : Type ℓ} → Option A → Bool
is_some none = false
is_some (some x) = true

abbrev pub is_claim : Lease → Payload → Bool
is_claim l p =
    (p.schema == claim_schema && is_some p.owner) && (is_some p.expires_at && p.resource == l.key)

unfoldable pub checked :
    Lease → Outcome (String × Option Payload) → Outcome (String × Option Payload)
checked l (died e) = died e
checked l (done (oid, none)) = done (oid, none)
checked l (done (oid, some p)) = if is_claim l p then done (oid, some p) else died malformed_lease

-- Whether an expiry, in seconds, is still ahead.
abbrev pub is_ahead : ℕ → Option ℕ → Bool
is_ahead now none = false
is_ahead now (some e) = ltb now (e * second)

abbrev pub in_force : ℕ → Option Payload → Bool
in_force now none = false
in_force now (some p) = is_ahead now p.expires_at

abbrev pub is_owner : Lease → Option String → Bool
is_owner l none = false
is_owner l (some o) = o == l.owner

abbrev pub held_by : Lease → Option Payload → Bool
held_by l none = false
held_by l (some p) = is_owner l p.owner

module _ {R : Type 0} (git : Git R) (others : R → R) where
  -- `Lease._read`
  unfoldable pub read_lease : Lease → R → Outcome (String × Option Payload)
  unfolding checked
  read_lease l r = checked l (read git r (ref_of l))

  unfoldable pub acquired_by : Lease → Outcome Bool × R → Outcome Bool × Lease × R
  acquired_by l (died e, r) = (died e, l, r)
  acquired_by l (done false, r) = (done false, l, r)
  acquired_by l (done true, r) = (done true, record l { acquired = true; running = true }, r)

  -- The claim that was read decides; an expired one is replaced.
  unfoldable pub take_over :
      ℕ → Lease → R → Outcome (String × Option Payload) → Outcome Bool × Lease × R
  unfolding acquired_by
  take_over now l r (died e) = (died e, l, r)
  take_over now l r (done (oid, payload)) =
      if in_force now payload
      then (done false, l, r)
      else acquired_by l (cas git others r (ref_of l) oid (some (payload_of l now)))

  -- `Lease.acquire`
  unfoldable pub acquire : ℕ → Lease → R → Outcome Bool × Lease × R
  unfolding read_lease take_over
  acquire now l r = take_over now l r (read_lease l r)

  -- `Lease.require`
  unfoldable pub require : ℕ → Lease → R → Outcome {0} Unit × Lease
  unfolding read_lease
  require now l r = if l.lost then (died lease_lost, l) else elim (read_lease l r) [
    | died e ↦ (died e, l)
    | done (oid, payload) ↦
        if held_by l payload && in_force now payload
        then (done tt, l)
        else (died lease_lost, record l { lost = true })
  ]

  abbrev give_up : Lease → Lease
  give_up l = record l { lost = true; running = false }

  unfoldable pub renewed : Lease → Outcome Bool × R → Lease × R
  renewed l (died e, r) = (give_up l, r)
  renewed l (done false, r) = (give_up l, r)
  renewed l (done true, r) = (l, r)

  -- One round of `Lease._heartbeat`, after its wait.
  unfoldable pub heartbeat : ℕ → Lease → R → Lease × R
  unfolding read_lease renewed
  heartbeat now l r =
      if not l.running || l.stopped
      then (record l { running = false }, r)
      else elim (read_lease l r) [
        | died e ↦ (give_up l, r)
        | done (oid, payload) ↦
            if held_by l payload && in_force now payload
            then renewed l (cas git others r (ref_of l) oid (some (payload_of l now)))
            else (give_up l, r)
      ]

  abbrev stop : Lease → Lease
  stop l = record l { acquired = false; stopped = true; running = false }

  -- `Lease.release`: a failure leaves the claim to its expiry.
  unfoldable pub release : Lease → R → Lease × R
  unfolding read_lease
  release l r = if not l.acquired then (l, r) else elim (read_lease l r) [
    | died e ↦ (stop l, r)
    | done (oid, payload) ↦
        if held_by l payload
        then (stop l, (cas git others r (ref_of l) oid none).1)
        else (stop l, r)
  ]
