-- ===== src/Pace/Window.antt =====
-- tauceti_worker/quota.py: one window under the curve. Times are whole seconds, an instant before
-- 1970 counts as 0; percentages are whole millionths of a percent. The texts of details are left out.
use tau_ceti_worker.Prelude.{
  String, ℕ, ◌*◌, ltb, leb, min, nat_eq, ◌==◌, if◌then◌else◌, Bool, true, false, Option, none, some,
}
use tau_ceti_worker.Prelude.Int.{ℤ, pos, pos_part, ◌-ℤ◌, ◌*ℤ◌}
use tau_ceti_worker.Pace.Curve.{hundred, Frac, Curve, clamp, pace_budget}

pub data WindowName : Type 0 where
  session weekly : WindowName

-- `STATE_*`
pub data ReadingState : Type 0 where
  active idle absent malformed : ReadingState

-- `STATUS_*`, and a state other than active carried through.
pub data WindowStatus : Type 0 where
  under_pace at_budget over_pace exhausted unknown : WindowStatus
  carried : ReadingState → WindowStatus

-- A JSON value; an `unbounded` number is not finite.
pub data Value : Type 0 where
  null unbounded nested : Value
  flag : Bool → Value
  number : ℤ → Value
  text : String → Value

pub record Reading : Type 0 where
  pub window : WindowName
  pub state : ReadingState
  pub used : Option ℕ
  pub resets_at : Option ℕ

pub record Window : Type 0 where
  pub name : WindowName
  pub used : Option ℤ
  pub elapsed : Option Frac
  pub resets_at : Option ℕ
  pub status : WindowStatus
  pub budget : Option Frac

-- `_WINDOW_S`
abbrev pub window_s : WindowName → ℕ
window_s session = 5 * 3600
window_s weekly = 7 * 24 * 3600

-- `_finite_num`, with the number.
abbrev pub finite_num : Option Value → Option ℤ
finite_num none = none
finite_num (some null) = none
finite_num (some unbounded) = none
finite_num (some nested) = none
finite_num (some (flag b)) = none
finite_num (some (number x)) = some x
finite_num (some (text s)) = none

-- The status of a clamped usage against its budget.
unfoldable pub status_at : ℕ → Frac → WindowStatus
status_at u thr =
    if leb hundred u
    then exhausted
    else if ltb (u * thr.den) thr.num
    then under_pace
    else if (u * thr.den) == thr.num
    then at_budget
    else over_pace

abbrev pub clamped : Option (ℤ × ℕ) → Option Frac
clamped none = none
clamped (some (n, d)) = some (clamp n d)

-- Where both the usage and the elapsed time are finite numbers.
unfoldable pub paced : Curve → WindowName → ℤ → Frac → Option ℕ → Window
unfolding status_at
paced c name x e resets =
    let u = min (pos_part x) hundred in
    let thr = pace_budget c e in
    record {
      name = name;
      used = some x;
      elapsed = some e;
      resets_at = resets;
      status = status_at u thr;
      budget = some thr;
    }

abbrev pub unpaced : WindowName → Option ℤ → Option Frac → Option ℕ → WindowStatus → Window
unpaced name used e resets status = record {
  name = name;
  used = used;
  elapsed = e;
  resets_at = resets;
  status = status;
  budget = none;
}

unfoldable pub classify_open : Curve → WindowName → Option ℤ → Option Frac → Option ℕ → Window
unfolding paced
classify_open c name none e resets = unpaced name none e resets unknown
classify_open c name (some x) none resets = unpaced name (some x) none resets unknown
classify_open c name (some x) (some e) resets = paced c name x e resets

-- `_classify_window`; a usage that is no finite number is `none`.
unfoldable pub classify_window :
    Curve → WindowName → Option ℤ → Option (ℤ × ℕ) → Option ℕ → Bool → Window
unfolding classify_open
classify_window c name used elapsed resets true =
    unpaced name used (clamped elapsed) resets exhausted
classify_window c name used elapsed resets false =
    classify_open c name used (clamped elapsed) resets

-- The elapsed percentage as an integer over the length of the window. An active reading has a clock.
abbrev pub elapsed_of : WindowName → Option ℕ → ℕ → Option (ℤ × ℕ)
elapsed_of w none now = none
elapsed_of w (some resets) now =
    some ((pos (window_s w) -ℤ (pos resets -ℤ pos now)) *ℤ pos hundred, window_s w)

abbrev pub as_integer : Option ℕ → Option ℤ
as_integer none = none
as_integer (some u) = some (pos u)

abbrev pub start : Frac
start = record { num = 0; den = 1 }

-- A reading that is not active. An idle one is paced as unused at the start of a window.
unfoldable pub carry : Curve → Reading → ReadingState → Window
carry c r idle = record {
  name = r.window;
  used = as_integer r.used;
  elapsed = some start;
  resets_at = r.resets_at;
  status = carried idle;
  budget = some (pace_budget c start);
}
carry c r s = unpaced r.window (as_integer r.used) none r.resets_at (carried s)

unfoldable pub window_with : Curve → Reading → ReadingState → ℕ → Window
unfolding classify_window carry
window_with c r active now =
    classify_window c r.window (as_integer r.used) (elapsed_of r.window r.resets_at now) r.resets_at
      false
window_with c r s now = carry c r s

-- `_window_from_reading`
unfoldable pub window_from_reading : Curve → ℕ → Reading → Window
unfolding window_with
window_from_reading c now r = window_with c r r.state now
