-- ===== src/Pace/Codex.antt =====
-- tauceti_worker/quota.py: the windows of a Codex usage response, and the verdict on them.
use tau_ceti_worker.Prelude.{
  ℕ, ◌+◌, ◌-◌, ◌*◌, ltb, leb, not, ◌&&◌, if◌then◌else◌, Bool, true, false, Option, none, some, List,
  [], ◌∷◌, all,
}
use tau_ceti_worker.Prelude.Int.{ℤ, pos, negsuc}
use tau_ceti_worker.Pace.Curve.{Curve, hundred}
use tau_ceti_worker.Pace.Window.{
  WindowName, session, weekly, Value, finite_num, Window, classify_window,
}
use tau_ceti_worker.Pace.Claude.{earlier}
use tau_ceti_worker.Pace.Provider.{Provider, some_of, is_under}

pub record CodexWindow : Type 0 where
  pub limit_window_seconds : Option Value
  pub reset_after_seconds : Option Value
  pub used_percent : Option Value

-- A window that is null or left out is `none`; one that is no object is `some none`.
pub record RateLimit : Type 0 where
  pub limit_reached : Bool
  pub primary_window : Option (Option CodexWindow)
  pub secondary_window : Option (Option CodexWindow)

abbrev pub empty_window : CodexWindow
empty_window = record {
  limit_window_seconds = none;
  reset_after_seconds = none;
  used_percent = none;
}

-- Positive, and the rest within the length.
unfoldable pub clocks_of : Option ℤ → Option ℤ → Option (ℕ × ℕ)
clocks_of (some (pos lim)) (some (pos ra)) = if ltb 0 ra && leb ra lim then some (lim, ra) else none
clocks_of lim ra = none

-- `_codex_clocks`
unfoldable pub codex_clocks : Option CodexWindow → Option (ℕ × ℕ)
unfolding clocks_of
codex_clocks none = none
codex_clocks (some w) =
    clocks_of (finite_num w.limit_window_seconds) (finite_num w.reset_after_seconds)

-- The reset of a window that is present.
unfoldable pub reset_at : ℕ → Option (ℕ × ℕ) → Option ℕ
reset_at now none = none
reset_at now (some (lim, ra)) = some (now + ra)

-- `_codex_valid_until`, of a payload whose `rate_limit` is an object
unfoldable pub codex_valid_until :
    ℕ → Option (Option CodexWindow) → Option (Option CodexWindow) → Option ℕ
unfolding codex_clocks reset_at
codex_valid_until now none none = none
codex_valid_until now (some w) none = reset_at now (codex_clocks w)
codex_valid_until now none (some w) = reset_at now (codex_clocks w)
codex_valid_until now (some w) (some v) =
    earlier (reset_at now (codex_clocks w)) (reset_at now (codex_clocks v))

abbrev pub or_empty : Option CodexWindow → CodexWindow
or_empty none = empty_window
or_empty (some w) = w

abbrev pub is_short : Option ℤ → Bool
is_short none = false
is_short (some (pos n)) = leb n (24 * 3600)
is_short (some (negsuc n)) = true

abbrev pub window_name : CodexWindow → WindowName
window_name w = if is_short (finite_num w.limit_window_seconds) then session else weekly

abbrev pub elapsed_from : Option (ℕ × ℕ) → Option (ℤ × ℕ)
elapsed_from none = none
elapsed_from (some (lim, ra)) = some (pos ((lim - ra) * hundred), lim)

-- One present window.
unfoldable pub codex_window : Curve → ℕ → Bool → Option CodexWindow → Window
unfolding codex_clocks reset_at
codex_window c now limit_reached w =
    classify_window c (window_name (or_empty w)) (finite_num (or_empty w).used_percent)
      (elapsed_from (codex_clocks w)) (reset_at now (codex_clocks w)) limit_reached

unfoldable pub codex_windows : Curve → ℕ → Bool → List (Option (Option CodexWindow)) → List Window
unfolding codex_window
codex_windows c now limit_reached [] = []
codex_windows c now limit_reached (none ∷ ws) = codex_windows c now limit_reached ws
codex_windows c now limit_reached (some w ∷ ws) =
    codex_window c now limit_reached w ∷ codex_windows c now limit_reached ws

unfoldable pub windows_of : Curve → ℕ → Option RateLimit → List Window
unfolding codex_windows
windows_of c now none = []
windows_of c now (some rl) =
    codex_windows c now rl.limit_reached (rl.primary_window ∷ rl.secondary_window ∷ [])

abbrev pub is_limited : Option RateLimit → Bool
is_limited none = false
is_limited (some rl) = rl.limit_reached

-- `_codex_from_payload`, of `rate_limit`: `none` is a null or an empty one.
unfoldable pub codex_from_payload : Curve → ℕ → Option RateLimit → Provider
unfolding windows_of
codex_from_payload c now rl = record {
  available =
      some_of (windows_of c now rl) && (all is_under (windows_of c now rl) && not (is_limited rl));
  windows = windows_of c now rl;
  unsupported = false;
  bootstrap_eligible = false;
  pending_bootstrap = [];
}

abbrev pub codex_deadline : ℕ → Option RateLimit → Option ℕ
codex_deadline at none = none
codex_deadline at (some rl) = codex_valid_until at rl.primary_window rl.secondary_window

abbrev pub until_deadline : ℕ → Option RateLimit → ℕ → Option ℕ → Option (Option RateLimit × ℕ)
until_deadline now rl at none = none
until_deadline now rl at (some deadline) = if leb deadline now then none else some (rl, at)

-- `_cached_codex`, of the payload and the instant of an entry, if it has them
unfoldable pub cached_codex :
    ℕ → Option (Option RateLimit) → Option ℕ → Option (Option RateLimit × ℕ)
unfolding codex_valid_until
cached_codex now none at = none
cached_codex now (some rl) none = none
cached_codex now (some rl) (some at) = until_deadline now rl at (codex_deadline at rl)
