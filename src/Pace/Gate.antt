-- ===== src/Pace/Gate.antt =====
-- tauceti_worker/quota.py: what an available provider's payload says.
use tau_ceti_worker.Prelude.{
  String, min, ℕ, ◌+◌, ◌*◌, ◌≤◌, ◌<◌, arith, ◌≡◌, true, Option, some, subst,
}
use tau_ceti_worker.Prelude.Int.{pos, ◌-ℤ◌, ◌*ℤ◌}
use tau_ceti_worker.Pace.Curve.{Curve, Frac, hundred, clamp, pace_budget}
use tau_ceti_worker.Pace.Window.{
  WindowName, window_s, window_from_reading, window_with, classify_window, classify_open, paced,
  status_at, carry,
}
use tau_ceti_worker.Pace.Claude.{
  reset_kind, usage_kind, claude_readings, object, Entry, governing, claude_record_state,
  UsageRecord, value, claude_window_reading, claude_reading, Payload, record_state, Kind, clocked,
  reading_from, skew,
}
use tau_ceti_worker.Pace.Provider.{
  verdict, claude_provider, claude_from_payload, is_under, is_under_pace,
}
use tau_ceti_worker.Prelude.{none, refl}
use tau_ceti_worker.Pace.Window.{session, weekly}
use tau_ceti_worker.Pace.Claude.{missing, explicit_null, bad, null_entry, other_entry}

-- The budget at an instant in a window that resets at t.
abbrev pub budget_at : Curve → ℕ → WindowName → ℕ → Frac
budget_at c now w t =
    pace_budget c (clamp ((pos (window_s w) -ℤ (pos t -ℤ pos now)) *ℤ pos hundred) (window_s w))

-- The clock is live and no further out than the window is long, and the usage is below the quota
-- and below the budget.
abbrev pub HasRoom : Curve → ℕ → WindowName → ℕ → ℕ → Type 0
HasRoom c now w u t =
    (now ≤ t + skew)
    × (t ≤ now + (window_s w + skew))
    × (u < hundred)
    × (u * (budget_at c now w t).den < (budget_at c now w t).num)

pub status_at-under :
    (u : ℕ) (f : Frac) → is_under_pace (status_at u f) ≡ true → (u < hundred) × (u * f.den < f.num)
unfolding status_at
status_at-under u f h = ground arith

min_below : (u : ℕ) → min u hundred < hundred → min u hundred ≡ u
min_below u h = omega arith

paced-under :
    (c : Curve) (w : WindowName) (u : ℕ) (e : Frac) (r : Option ℕ)
    → is_under (paced c w (pos u) e r) ≡ true
    → (u < hundred) × (u * (pace_budget c e).den < (pace_budget c e).num)
unfolding paced
paced-under c w u e r h =
    let below = status_at-under (min u hundred) (pace_budget c e) h in
    subst (λ v. (v < hundred) × (v * (pace_budget c e).den < (pace_budget c e).num))
      (min_below u below.0) below

-- What a window that is under pace was read from.
pub clocked-under :
    (c : Curve) (now : ℕ) (w : WindowName) (u t : ℕ)
    → is_under (window_from_reading c now (reading_from w (clocked now (window_s w) u t))) ≡ true
    → HasRoom c now w u t
unfolding clocked window_from_reading window_with classify_window classify_open carry
clocked-under c now w u t h =
    let split =
      paced-under c w u
        (clamp ((pos (window_s w) -ℤ (pos t -ℤ pos now)) *ℤ pos hundred) (window_s w)) (some t) in
    ground (arith, split)

abbrev pub Live : Curve → ℕ → WindowName → Kind ℕ → Kind ℕ → Type 0
Live c now w uk rk = (u : ℕ) × (t : ℕ) × (uk ≡ value u) × (rk ≡ value t) × HasRoom c now w u t

record_state-under :
    (c : Curve) (now : ℕ) (w : WindowName) (uk rk : Kind ℕ)
    → is_under (window_from_reading c now (reading_from w (record_state now (window_s w) uk rk)))
      ≡ true
    → Live c now w uk rk
unfolding record_state window_from_reading window_with carry
record_state-under c now w (value u) (value t) h = (u, t, refl, refl, clocked-under c now w u t h)
record_state-under c now w bad k h = ground arith
record_state-under c now w missing bad h = ground arith
record_state-under c now w explicit_null bad h = ground arith
record_state-under c now w (value u) bad h = ground arith
record_state-under c now w missing (value t) h = ground arith
record_state-under c now w explicit_null (value t) h = ground arith
record_state-under c now w (value u) missing h = ground arith
record_state-under c now w (value u) explicit_null h = ground arith
record_state-under c now w missing missing h = ground arith
record_state-under c now w missing explicit_null h = ground arith
record_state-under c now w explicit_null missing h = ground arith
record_state-under c now w explicit_null explicit_null h = ground arith

module _ (timestamp : String → Option ℕ) where
  -- The record that decides on the window states a usage and a clock with room.
  abbrev pub IsOpen : Curve → ℕ → Payload → WindowName → Type 0
  IsOpen c now p w =
      (rec : UsageRecord) × (governing w p ≡ some (object rec))
      × Live c now w (usage_kind rec) (reset_kind timestamp rec)

  claude_reading-under :
      (c : Curve) (now : ℕ) (w : WindowName) (e : Option Entry)
      → is_under (window_from_reading c now (claude_reading timestamp w now e)) ≡ true
      → (rec : UsageRecord) × (e ≡ some (object rec))
        × Live c now w (usage_kind rec) (reset_kind timestamp rec)
  unfolding claude_reading claude_record_state window_from_reading window_with carry
  claude_reading-under c now w none h = ground arith
  claude_reading-under c now w (some null_entry) h = ground arith
  claude_reading-under c now w (some other_entry) h = ground arith
  claude_reading-under c now w (some (object rec)) h =
      (rec, refl, record_state-under c now w (usage_kind rec) (reset_kind timestamp rec) h)

  claude_window_reading-under :
      (c : Curve) (now : ℕ) (p : Payload) (w : WindowName)
      → is_under (window_from_reading c now (claude_window_reading timestamp p now w)) ≡ true
      → IsOpen c now p w
  unfolding claude_window_reading
  claude_window_reading-under c now p w h = claude_reading-under c now w (governing w p) h

  -- Claude is available from a payload only if, for the session and for the week, the record that
  -- decides states a usage below the quota and below the budget of that instant, with a clock that
  -- is at most a minute past and no more than a minute further out than the window is long.
  pub claude_from_payload-available :
      (c : Curve) (p : Payload) (now : ℕ) (w : WindowName)
      → (claude_from_payload timestamp c p now).available ≡ true
      → IsOpen c now p w
  unfolding claude_from_payload claude_provider verdict claude_readings
  claude_from_payload-available c p now session h =
      claude_window_reading-under c now p session (ground arith)
  claude_from_payload-available c p now weekly h =
      claude_window_reading-under c now p weekly (ground arith)
