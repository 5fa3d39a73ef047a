-- ===== src/Pace/Provider.antt =====
-- tauceti_worker/quota.py: the verdict on a provider, Claude's cache rule, and the choice between
-- two providers. Texts, the next eligible instant and the marks of a rate limit are left out.
use tau_ceti_worker.Prelude.{
  ℕ, String, leb, not, ◌&&◌, Bool, true, false, Option, none, some, List, [], ◌∷◌, all, map, filter,
  if◌then◌else◌,
}
use tau_ceti_worker.Pace.Curve.{Curve, idle_init_block}
use tau_ceti_worker.Pace.Window.{
  WindowName, idle, absent, WindowStatus, under_pace, carried, Reading, Window, window_from_reading,
}
use tau_ceti_worker.Pace.Claude.{Payload, claude_readings, claude_valid_until}

pub record Provider : Type 0 where
  pub available : Bool
  pub windows : List Window
  pub unsupported : Bool
  pub bootstrap_eligible : Bool
  pub pending_bootstrap : List WindowName

abbrev pub is_under_pace : WindowStatus → Bool
is_under_pace under_pace = true
is_under_pace s = false

abbrev pub is_carried_idle : WindowStatus → Bool
is_carried_idle (carried idle) = true
is_carried_idle s = false

abbrev pub is_carried_absent : WindowStatus → Bool
is_carried_absent (carried absent) = true
is_carried_absent s = false

abbrev pub is_under : Window → Bool
is_under w = is_under_pace w.status

abbrev pub is_idle : Window → Bool
is_idle w = is_carried_idle w.status

abbrev pub is_absent : Window → Bool
is_absent w = is_carried_absent w.status

abbrev pub some_of {ℓ} : {A : Type ℓ} → List A → Bool
some_of [] = false
some_of (x ∷ xs) = true

abbrev pub is_none {ℓ} : {A : Type ℓ} → Option A → Bool
is_none none = true
is_none (some x) = false

abbrev pub not_idle : Window → Bool
not_idle w = not (is_idle w)

-- Whether a bootstrap may open the idle windows.
unfoldable pub is_eligible : Curve → Bool → List Window → Bool
is_eligible c recorded ws =
    some_of (filter is_idle ws)
    && (all is_under (filter not_idle ws) && (not recorded && is_none (idle_init_block c)))

abbrev pub name_of : Window → WindowName
name_of w = w.name

unfoldable pub verdict : Curve → Bool → List Window → Provider
unfolding is_eligible
verdict c recorded ws = record {
  available = some_of ws && all is_under ws;
  windows = ws;
  unsupported = some_of ws && all is_absent ws;
  bootstrap_eligible = is_eligible c recorded ws;
  pending_bootstrap = if is_eligible c recorded ws then map name_of (filter is_idle ws) else [];
}

-- `_claude_provider`, of the readings at the instant that they describe
unfoldable pub claude_provider : Curve → Bool → ℕ → List Reading → Provider
unfolding verdict
claude_provider c recorded now rs = verdict c recorded (map (window_from_reading c now) rs)

-- A cache entry: its payload, `none` if it is no object, and its instant, if that is a finite number.
pub record CacheEntry : Type 0 where
  pub payload : Option Payload
  pub fetched_at : Option ℕ

abbrev pub unless_passed : ℕ → Option ℕ → Payload → ℕ → Option (Payload × ℕ)
unless_passed now none p at = none
unless_passed now (some deadline) p at = if leb deadline now then none else some (p, at)

module _ (timestamp : String → Option ℕ) where
  -- `_claude_from_payload`, of an object
  unfoldable pub claude_from_payload : Curve → Payload → ℕ → Provider
  unfolding claude_provider
  claude_from_payload c p now = claude_provider c false now (claude_readings timestamp (some p) now)

  unfoldable pub served : ℕ → Option Payload → Option ℕ → Option (Payload × ℕ)
  served now none at = none
  served now (some p) none = none
  served now (some p) (some at) =
      unless_passed now (claude_valid_until (claude_readings timestamp (some p) now)) p at

  -- `_cached_claude`, of the entry that `_cached_entry` found
  unfoldable pub cached_claude : ℕ → Option CacheEntry → Option (Payload × ℕ)
  unfolding served
  cached_claude now none = none
  cached_claude now (some e) = served now e.payload e.fetched_at

  -- `_from_cached_claude`
  unfoldable pub from_cached_claude : Curve → Bool → Payload × ℕ → Provider
  unfolding claude_provider
  from_cached_claude c recorded (p, at) =
      claude_provider c recorded at (claude_readings timestamp (some p) at)

pub data Agent : Type 0 where
  codex claude : Agent

-- `none` is no choice or "auto".
abbrev pub asks : Agent → Option Agent → Bool
asks a none = true
asks codex (some codex) = true
asks claude (some claude) = true
asks a (some b) = false

-- `choose`: a provider that is not asked is not in the snapshot.
unfoldable pub choose : Option Agent → Provider → Provider → Option Agent
choose forced p q =
    if asks codex forced && p.available
    then some codex
    else if asks claude forced && q.available
    then some claude
    else none
