-- ===== src/Grants/Fleet.antt =====
-- tauceti_worker/fleet_capacity.py. Times are whole microseconds; an expiry below 0 counts as 0.
use tau_ceti_worker.Prelude.{
  ◌∙◌, ap, sym, subst, not, contains, ◌+◌, ◌≤◌, ltb, ◌||◌, ◌<◌, string_eq, nat_eq, leb, ◌↔◌, ◌==◌,
  if◌then◌else◌, arith, List, none, some, true, false, ◌≡◌, refl, ℕ, String, Option, Bool,
}

-- The policy file, if it holds a JSON object; a field of another type than its own is `none`.
pub record FleetPolicy : Type 0 where
  pub version : Option ℕ
  pub expires_at : Option ℕ
  pub workers : Option (List String)
  pub reason : String

pub data Refusal : Type 0 where
  heartbeat_expired clock_inconsistent policy_unavailable : Refusal
  not_listed : String → Refusal

abbrev pub clock_slack : ℕ
clock_slack = 30000000

-- Without its cut to 500 characters.
abbrev pub reason_text : FleetPolicy → String
reason_text p = if p.reason == "" then "fleet capacity reserved for CI" else p.reason

unfoldable pub judge : FleetPolicy → ℕ → List String → String → ℕ → Option Refusal
judge p expires allowed worker now =
    if leb expires now
    then some heartbeat_expired
    else if ltb (now + clock_slack) expires
    then some clock_inconsistent
    else if not (contains worker allowed)
    then some (not_listed (reason_text p))
    else none

abbrev pub is_version_one : Option ℕ → Bool
is_version_one none = false
is_version_one (some v) = v == 1

unfoldable pub validated :
    FleetPolicy → Bool → Option ℕ → Option (List String) → String → ℕ → Option Refusal
unfolding judge
validated p false expires allowed worker now = some policy_unavailable
validated p true none allowed worker now = some policy_unavailable
validated p true (some expires) none worker now = some policy_unavailable
validated p true (some expires) (some allowed) worker now = judge p expires allowed worker now

unfoldable pub read_policy : Option FleetPolicy → String → ℕ → Option Refusal
unfolding validated
read_policy none worker now = some policy_unavailable
read_policy (some p) worker now =
    validated p (is_version_one p.version) p.expires_at p.workers worker now

-- `admission_reason`: `none` without a configured file, else what the file holds.
unfoldable pub admission_reason : Option (Option FleetPolicy) → String → ℕ → Option Refusal
unfolding read_policy
admission_reason none worker now = none
admission_reason (some file) worker now = read_policy file worker now

-- `_CURRENT_UNIT`
pub record LaunchUnit : Type 0 where
  pub worker : String
  pub admitted : Bool

abbrev pub is_admitted : Option LaunchUnit → Bool
is_admitted none = false
is_admitted (some u) = u.admitted

abbrev pub worker_of : String → Option LaunchUnit → String
worker_of default_worker none = default_worker
worker_of default_worker (some u) = u.worker

abbrev pub admit_unit : Option LaunchUnit → Option LaunchUnit
admit_unit none = none
admit_unit (some u) = some (record u { admitted = true })

-- `admission_unit`: what a body runs in, and what is restored after it.
abbrev pub enter_unit : String → Option LaunchUnit → Option LaunchUnit
enter_unit worker previous = some (record { worker = worker; admitted = false })

-- `check_launch_admission`; `api` is a launch through the API bridge, which checks for itself.
unfoldable pub check_launch_admission :
    Option (Option FleetPolicy)
    → Bool
    → String
    → ℕ
    → Option LaunchUnit
    → Option Refusal × Option LaunchUnit
unfolding admission_reason
check_launch_admission file api default_worker now unit =
    if api || is_admitted unit
    then (none, unit)
    else elim (admission_reason file (worker_of default_worker unit) now) [
      | some reason ↦ (some reason, unit)
      | none ↦ (none, admit_unit unit)
    ]

-- A policy file that lets a worker in.
pub record IsListed (p : FleetPolicy) (worker : String) (now : ℕ) : Type 0 where
  pub expires : ℕ
  pub allowed : List String
  pub versioned : p.version ≡ some 1
  pub expiry : p.expires_at ≡ some expires
  pub workers_known : p.workers ≡ some allowed
  pub alive : now < expires
  pub near : expires ≤ now + clock_slack
  pub listed : contains worker allowed ≡ true

version_one : (v : Option ℕ) → is_version_one v ≡ true → v ≡ some 1
version_one none h = absurd (cc)
version_one (some v) h = ground arith

some_policy : {p q : FleetPolicy} → some p ≡ some q → p ≡ q
some_policy h = cc

listed :
    (p : FleetPolicy) (version : Bool) (expires : Option ℕ) (allowed : Option (List String))
    (worker : String) (now : ℕ)
    → is_version_one p.version ≡ version
    → p.expires_at ≡ expires
    → p.workers ≡ allowed
    → validated p version expires allowed worker now ≡ none
    → IsListed p worker now
unfolding validated judge
listed p false expires allowed worker now v e w h = absurd (cc)
listed p true none allowed worker now v e w h = absurd (cc)
listed p true (some expires) none worker now v e w h = absurd (cc)
listed p true (some expires) (some allowed) worker now v e w h = record {
  expires = expires;
  allowed = allowed;
  versioned = version_one p.version v;
  expiry = e;
  workers_known = w;
  alive = ground arith;
  near = ground arith;
  listed = ground arith;
}

judged :
    (p : FleetPolicy) (expires : ℕ) (allowed : List String) (worker : String) (now : ℕ)
    → now < expires
    → expires ≤ now + clock_slack
    → contains worker allowed ≡ true
    → judge p expires allowed worker now ≡ none
unfolding judge
judged p expires allowed worker now alive near shown = ground arith

let_in :
    (p : FleetPolicy) (worker : String) (now : ℕ)
    → IsListed p worker now
    → validated p (is_version_one p.version) p.expires_at p.workers worker now ≡ none
unfolding validated
let_in p worker now l =
    ap (λ x. validated p (is_version_one x) p.expires_at p.workers worker now) l.versioned
    ∙ ap (λ x. validated p true x p.workers worker now) l.expiry
    ∙ ap (λ x. validated p true (some l.expires) x worker now) l.workers_known
    ∙ judged p l.expires l.allowed worker now l.alive l.near l.listed

-- A configured fleet fails closed: a worker is let in exactly if the file can be read, has version
-- 1, expires after now but at most thirty seconds after, and lists the worker.
pub admission_reason-configured :
    (file : Option FleetPolicy) (worker : String) (now : ℕ)
    → (admission_reason (some file) worker now ≡ none)
      ↔ ((p : FleetPolicy) × (file ≡ some p) × IsListed p worker now)
unfolding admission_reason read_policy
admission_reason-configured none worker now = (λ h. absurd (cc), λ (p, e, l). absurd (cc))
admission_reason-configured (some p) worker now = (
  λ h. (
    p,
    refl,
    listed p (is_version_one p.version) p.expires_at p.workers worker now refl refl refl h,
  ),
  λ (q, e, l). let_in p worker now (subst (λ x. IsListed x worker now) (some_policy (sym e)) l),
)
