-- ===== src/Budget/State.antt =====
-- tauceti_worker/budget.py: the data of the ledger, and the state that a replay rebuilds.
-- Amounts are whole numbers of nano-dollars, rates nano-dollars an hour, times microseconds.
use tau_ceti_worker.Prelude.{
  ℕ, ◌*◌, String, Bool, true, false, Option, none, some, List, Dict, string_eq, ◌==◌, if◌then◌else◌,
  ◌⊎◌, inl, inr, ◌≡◌, refl,
}
use tau_ceti_worker.Prelude.Int.{ℤ, pos}

abbrev pub second : ℕ
second = 1000000

abbrev pub hour : ℕ
hour = 3600 * second

abbrev pub dollar : ℤ
dollar = pos 1000000000

-- What a method raises as `BudgetError`.
pub data Error : Type 0 where
  torn_ledger invalid_record invalid_event launched_twice no_baseline negative_cost : Error
  unknown_invocation conflicting_receipt exclusive_grants grant_not_positive : Error
  negative_rate note_required live_bridge nothing_torn : Error
  missing_totals invalid_bound invalid_totals negative_totals no_admission usage_recorded : Error
  still_running invalid_finish mixed_baselines late_conflict : Error

-- What a method answers.
pub data Result {κ} (Answer : Type κ) : Type κ where
  err : Error → Result Answer
  ok : Answer → Result Answer

infixl 5 ◌>>=◌ ◌>>◌
abbrev pub ◌>>=◌ {κ μ} :
    {Answer : Type κ} {Next : Type μ} → Result Answer → (Answer → Result Next) → Result Next
err why >>= next = err why
ok answer >>= next = next answer

abbrev pub ◌>>◌ {κ} : {Next : Type κ} → Result (Unit {0}) → Result Next → Result Next
guard >> next = guard >>= λ passed. next

-- To split on a computed result and keep the equation.
pub Result-cases {κ} :
    {Answer : Type κ} (x : Result Answer)
    → ((y : Answer) × (x ≡ ok y)) ⊎ ((why : Error) × (x ≡ err why))
Result-cases (err why) = inr (why, refl)
Result-cases (ok y) = inl (y, refl)

pub ok-injective {ℓ} : {A : Type ℓ} (a b : A) → ok a ≡ ok b → a ≡ b
ok-injective a b h = cc

-- `if test: raise error`
abbrev pub raise_if : Bool → Error → Result (Unit {0})
raise_if true e = err e
raise_if false e = ok tt

-- What comes after a guard that did not raise.
pub raise_if-eq_ok {ℓ} :
    {A : Type ℓ} (b : Bool) (e : Error) (k : Result A) {a : A}
    → (raise_if b e >> k) ≡ ok a
    → (b ≡ false) × (k ≡ ok a)
raise_if-eq_ok true e k h = absurd (cc)
raise_if-eq_ok false e k h = (refl, h)

-- The truth of an optional text: absent and empty are both false.
abbrev pub given : Option String → Option String
given none = none
given (some s) = if s == "" then none else some s

pub data Status : Type 0 where
  active unresolved provisional settled : Status

-- A session is the dict of its `admit` event, with what later events write into it. An absent
-- key is `none`; `usage_checkpoint` and the recovery fields are opaque texts.
pub record Session : Type 0 where
  pub id : String
  pub worker : String
  pub model : String
  pub phase : String
  pub estimate : ℤ
  pub status : Status
  pub started : ℕ
  pub bridge : Option String
  pub resume : Option String
  pub owner : Option String
  pub lifecycle : Option String
  pub archive : Option String
  pub cost : Option ℤ
  pub outcome : Option String
  pub totals : Dict String ℤ
  pub cost_provenance : Option String
  pub finished : Option ℕ
  pub recovery_manifest : Option String
  pub recovery_audit : Option String
  pub reserve : Option ℤ
  pub lower_bound_cost : Option ℤ
  pub lower_bound_totals : Dict String ℤ
  pub usage_checkpoint : Option String
  pub usage_tail : Option ℤ

pub record Waiter : Type 0 where
  pub worker : String
  pub model : String
  pub ticket : ℕ
  pub since : ℕ
  pub seen : ℕ
  pub reason : String
  pub estimate : ℤ

-- The fields that a `correction` replaces where it names them.
pub record Amendment : Type 0 where
  pub cost_provenance : Option String
  pub totals : Option (Dict String ℤ)
  pub recovery_audit : Option String
  pub finished : Option ℕ
  pub recovery_manifest : Option String

-- The fields that an `unresolved` event carries beside a "reserve".
pub record LowerBound : Type 0 where
  pub reserve : ℤ
  pub cost : ℤ
  pub totals : Dict String ℤ
  pub usage_checkpoint : Option String
  pub usage_tail : Option ℤ

pub record Settlement : Type 0 where
  pub cost : ℤ
  pub outcome : String
  pub note : Option String
  pub totals : Dict String ℤ
  pub cost_provenance : String
  pub finished : Option ℕ
  pub recovery_manifest : Option String
  pub recovery_audit : Option String

-- The events of a ledger record; the fields that no replay reads are left out.
pub data Event : Type 0 where
  accrue : (amount : ℤ) → (watermark : ℕ) → Event
  grant : (delta : ℤ) → Event
  set_grant : (delta : ℤ) → Event
  correction : (id : String) → (delta cost : ℤ) → Amendment → Event
  rate : (amount : ℕ) → Event
  wait : Waiter → Event
  admit : Session → Event
  settle : (id : String) → Settlement → Event
  unresolve :
      (id outcome : String)
      → (is_provisional : Bool) → (finished : Option ℕ) → Option LowerBound
      → Event
  cooldown : (model : String) → (until : ℕ) → Event

pub record Record : Type 0 where
  pub seq : ℕ
  pub timestamp : ℕ
  pub events : List Event

pub record State : Type 0 where
  pub balance : ℤ
  pub rate : ℕ
  pub spent : ℤ
  pub watermark : ℕ
  pub sessions : Dict String Session
  pub waiting : Dict String Waiter
  pub cooldowns : Dict String ℕ
  pub seq : ℕ

-- The directory: events.jsonl, whether its last line is torn, and waiting.json if it is readable.
pub record Store : Type 0 where
  pub ledger : List Record
  pub torn : Bool
  pub queue : Option (Dict String Waiter)
