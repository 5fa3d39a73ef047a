-- ===== src/Pace/Claude.antt =====
-- tauceti_worker/quota.py: the two windows of a Claude usage response, and the verdict on them. The
-- instant of a timestamp is Python's to read.
use tau_ceti_worker.Prelude.{
  ℕ, String, ◌+◌, ltb, not, string_eq, ◌==◌, if◌then◌else◌, Bool, true, false, Option, none, some,
  List, [], ◌∷◌, map, min,
}
use tau_ceti_worker.Prelude.Int.{pos}
use tau_ceti_worker.Pace.Window.{
  WindowName, session, weekly, ReadingState, active, idle, absent, malformed, Value, null, number,
  text, Reading, window_s,
}

-- The fields of a window's record; `none` is one that it does not carry.
pub record UsageRecord : Type 0 where
  pub percent : Option Value
  pub utilization : Option Value
  pub resets_at : Option Value

-- What a payload may hold for a window.
pub data Entry : Type 0 where
  null_entry other_entry : Entry
  object : UsageRecord → Entry

-- The `group`, else the `kind`, of a limit: "session", a text that starts with "weekly", or another.
pub data Group : Type 0 where
  session_group weekly_group other_group : Group

pub record Limit : Type 0 where
  pub group : Group
  pub has_scope : Bool
  pub entry : UsageRecord

-- `limits` is `none` if it is no list, and a member of it if it is no object.
pub record Payload : Type 0 where
  pub limits : Option (List (Option Limit))
  pub five_hour : Option Entry
  pub seven_day : Option Entry

-- `_F_*`
pub data Kind {ℓ} (A : Type ℓ) : Type ℓ where
  missing explicit_null bad : Kind A
  value : A → Kind A

abbrev pub skew : ℕ
skew = 60

-- `_field(rec, "percent", "utilization")`
abbrev pub first_field : Option Value → Option Value → Option Value
first_field none b = b
first_field (some a) b = some a

abbrev pub usage_value : Value → Kind ℕ
usage_value null = explicit_null
usage_value (number (pos u)) = value u
usage_value v = bad

abbrev pub usage_of : Option Value → Kind ℕ
usage_of none = missing
usage_of (some v) = usage_value v

-- `_usage_kind`
unfoldable pub usage_kind : UsageRecord → Kind ℕ
usage_kind rec = usage_of (first_field rec.percent rec.utilization)

abbrev pub known : Option ℕ → Kind ℕ
known none = bad
known (some t) = value t

abbrev pub given {ℓ} : {A : Type ℓ} → Kind A → Option A
given (value x) = some x
given k = none

-- What `_claude_record_state` answers, without the detail.
pub record StateRead : Type 0 where
  pub state : ReadingState
  pub used : Option ℕ
  pub resets_at : Option ℕ

abbrev pub stated : ReadingState → Option ℕ → Option ℕ → StateRead
stated s u r = record { state = s; used = u; resets_at = r }

-- A usage with a reset clock.
unfoldable pub clocked : ℕ → ℕ → ℕ → ℕ → StateRead
clocked now length u r =
    if ltb (r + skew) now
    then stated idle (some u) (some r)
    else if ltb (now + (length + skew)) r
    then stated malformed none none
    else stated active (some u) (some r)

-- The table of `_claude_record_state`.
unfoldable pub record_state : ℕ → ℕ → Kind ℕ → Kind ℕ → StateRead
unfolding clocked
record_state now length bad k = stated malformed none (given k)
record_state now length missing bad = stated malformed none none
record_state now length explicit_null bad = stated malformed none none
record_state now length (value u) bad = stated malformed (some u) none
record_state now length missing (value r) = stated malformed none (some r)
record_state now length explicit_null (value r) = stated malformed none (some r)
record_state now length (value u) (value r) = clocked now length u r
record_state now length (value u) missing =
    if ltb 0 u then stated malformed (some u) none else stated idle (some u) none
record_state now length (value u) explicit_null =
    if ltb 0 u then stated malformed (some u) none else stated idle (some u) none
record_state now length missing missing = stated malformed none none
record_state now length missing explicit_null = stated idle none none
record_state now length explicit_null missing = stated idle none none
record_state now length explicit_null explicit_null = stated idle none none

abbrev pub reading_from : WindowName → StateRead → Reading
reading_from w s = record { window = w; state = s.state; used = s.used; resets_at = s.resets_at }

-- Whether a limit is the record of the window.
abbrev pub is_for : WindowName → Group → Bool → Bool
is_for session session_group scoped = true
is_for weekly weekly_group scoped = not scoped
is_for w g scoped = false

-- `_claude_limits_record`
unfoldable pub limits_record : WindowName → List (Option Limit) → Option Entry
limits_record w [] = none
limits_record w (none ∷ ls) = limits_record w ls
limits_record w (some l ∷ ls) =
    let rest = limits_record w ls in
    if is_for w l.group l.has_scope then some (object l.entry) else rest

-- `_claude_flat_record`
abbrev pub flat_record : WindowName → Payload → Option Entry
flat_record session p = p.five_hour
flat_record weekly p = p.seven_day

abbrev pub listed_record : WindowName → Option (List (Option Limit)) → Option Entry
listed_record w none = none
listed_record w (some ls) = limits_record w ls

abbrev pub first_entry : Option Entry → Option Entry → Option Entry
first_entry none b = b
first_entry (some a) b = some a

-- The record that decides, by the precedence of `_claude_window_reading`.
unfoldable pub governing : WindowName → Payload → Option Entry
unfolding limits_record
governing w p = first_entry (listed_record w p.limits) (flat_record w p)

abbrev pub empty_payload : Payload
empty_payload = record { limits = none; five_hour = none; seven_day = none }

module _ (timestamp : String → Option ℕ) where
  -- `_parse_iso`
  abbrev pub parse_iso : String → Option ℕ
  parse_iso s = if s == "" then none else timestamp s

  abbrev pub reset_of : Option Value → Kind ℕ
  reset_of none = missing
  reset_of (some null) = explicit_null
  reset_of (some (text s)) = known (parse_iso s)
  reset_of (some v) = bad

  -- `_reset_kind`
  unfoldable pub reset_kind : UsageRecord → Kind ℕ
  reset_kind rec = reset_of rec.resets_at

  -- `_claude_record_state`
  unfoldable pub claude_record_state : UsageRecord → ℕ → ℕ → StateRead
  unfolding record_state usage_kind reset_kind
  claude_record_state rec now length = record_state now length (usage_kind rec) (reset_kind rec)

  -- `_claude_reading`
  unfoldable pub claude_reading : WindowName → ℕ → Option Entry → Reading
  unfolding claude_record_state
  claude_reading w now none = reading_from w (stated absent none none)
  claude_reading w now (some null_entry) = reading_from w (stated idle none none)
  claude_reading w now (some other_entry) = reading_from w (stated malformed none none)
  claude_reading w now (some (object rec)) =
      reading_from w (claude_record_state rec now (window_s w))

  -- `_claude_window_reading`
  unfoldable pub claude_window_reading : Payload → ℕ → WindowName → Reading
  unfolding claude_reading governing
  claude_window_reading p now w = claude_reading w now (governing w p)

  -- `_claude_readings`, of an object or of anything else
  unfoldable pub claude_readings : Option Payload → ℕ → List Reading
  unfolding claude_window_reading
  claude_readings none now = map (claude_window_reading empty_payload now) (session ∷ weekly ∷ [])
  claude_readings (some p) now = map (claude_window_reading p now) (session ∷ weekly ∷ [])

abbrev pub min_of : ℕ → Option ℕ → Option ℕ
min_of t none = none
min_of t (some s) = some (min t s)

abbrev pub clock_of : ReadingState → Option ℕ → Option ℕ
clock_of active t = t
clock_of s t = none

abbrev pub earlier : Option ℕ → Option ℕ → Option ℕ
earlier none u = none
earlier (some t) u = min_of t u

-- `_claude_valid_until`; there are always two readings.
unfoldable pub claude_valid_until : List Reading → Option ℕ
claude_valid_until [] = none
claude_valid_until (r ∷ []) = clock_of r.state r.resets_at
claude_valid_until (r ∷ s ∷ rs) =
    let rest = claude_valid_until (s ∷ rs) in earlier (clock_of r.state r.resets_at) rest
