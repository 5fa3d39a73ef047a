-- ===== src/Pace/Closed.antt =====
-- tauceti_worker/quota.py: what an available Codex response says.
use tau_ceti_worker.Prelude.{
  ℕ, ◌*◌, ◌<◌, ◌-◌, min, arith, ◌≡◌, refl, true, false, Bool, Option, none, some, List, [], ◌∷◌,
  ◌⊎◌, inl, inr, subst,
}
use tau_ceti_worker.Prelude.Int.{ℤ, pos, pos_part}
use tau_ceti_worker.Pace.Curve.{Curve, hundred, clamp, pace_budget}
use tau_ceti_worker.Pace.Window.{WindowName, finite_num, paced, classify_open, classify_window}
use tau_ceti_worker.Pace.Provider.{is_under}
use tau_ceti_worker.Pace.Codex.{
  CodexWindow, RateLimit, codex_clocks, codex_window, codex_windows, windows_of, codex_from_payload,
  or_empty, window_name, elapsed_from, reset_at,
}
use tau_ceti_worker.Prelude.{all, some, none}
use tau_ceti_worker.Pace.Gate.{status_at-under}

-- A present window states a clock, and a usage with room at that time.
abbrev pub IsClear : Curve → Option CodexWindow → Type 0
IsClear c w =
    (lim : ℕ) × (ra : ℕ) × (x : ℤ) × (codex_clocks w ≡ some (lim, ra))
    × (finite_num (or_empty w).used_percent ≡ some x)
    × (min (pos_part x) hundred < hundred)
    × (min (pos_part x) hundred * (pace_budget c (clamp (pos ((lim - ra) * hundred)) lim)).den
        < (pace_budget c (clamp (pos ((lim - ra) * hundred)) lim)).num)

classify_window-room :
    (c : Curve) (name : WindowName) (w : Option CodexWindow) (used : Option ℤ) (k : Option (ℕ × ℕ))
    (r : Option ℕ) (limited : Bool)
    → is_under (classify_window c name used (elapsed_from k) r limited) ≡ true
    → (limited ≡ false)
      × ((lim : ℕ) × (ra : ℕ) × (x : ℤ) × (k ≡ some (lim, ra))
          × (used ≡ some x)
          × (min (pos_part x) hundred < hundred)
          × (min (pos_part x) hundred * (pace_budget c (clamp (pos ((lim - ra) * hundred)) lim)).den
              < (pace_budget c (clamp (pos ((lim - ra) * hundred)) lim)).num))
unfolding classify_window classify_open paced
classify_window-room c name w used k r true h = absurd (ground arith)
classify_window-room c name w none k r false h = absurd (ground arith)
classify_window-room c name w (some x) none r false h = absurd (ground arith)
classify_window-room c name w (some x) (some (lim, ra)) r false h =
    let under =
      status_at-under (min (pos_part x) hundred)
        (pace_budget c (clamp (pos ((lim - ra) * hundred)) lim)) h in
    (refl, (lim, ra, x, refl, refl, under.0, under.1))

codex_window-IsClear :
    (c : Curve) (now : ℕ) (limited : Bool) (w : Option CodexWindow)
    → is_under (codex_window c now limited w) ≡ true
    → (limited ≡ false) × IsClear c w
unfolding codex_window
codex_window-IsClear c now limited w h =
    classify_window-room c (window_name (or_empty w)) w (finite_num (or_empty w).used_percent)
      (codex_clocks w) (reset_at now (codex_clocks w)) limited h

some-injective : (v w : Option CodexWindow) → some v ≡ some w → v ≡ w
some-injective v w h = cc

all_under-first :
    (c : Curve) (now : ℕ) (l : Bool) (o : Option (Option CodexWindow))
    (ws : List (Option (Option CodexWindow))) (w : Option CodexWindow)
    → all is_under (codex_windows c now l (o ∷ ws)) ≡ true
    → o ≡ some w
    → is_under (codex_window c now l w) ≡ true
unfolding codex_windows
all_under-first c now l none ws w h e = absurd (cc)
all_under-first c now l (some v) ws w h e =
    subst (λ x. is_under (codex_window c now l x) ≡ true) (some-injective v w e) (ground arith)

all_under-rest :
    (c : Curve) (now : ℕ) (l : Bool) (o : Option (Option CodexWindow))
    (ws : List (Option (Option CodexWindow)))
    → all is_under (codex_windows c now l (o ∷ ws)) ≡ true
    → all is_under (codex_windows c now l ws) ≡ true
unfolding codex_windows
all_under-rest c now l none ws h = h
all_under-rest c now l (some v) ws h = ground arith

all_under-present :
    (c : Curve) (now : ℕ) (l : Bool) (o q : Option (Option CodexWindow)) (w : Option CodexWindow)
    → all is_under (codex_windows c now l (o ∷ q ∷ [])) ≡ true
    → (o ≡ some w) ⊎ (q ≡ some w)
    → is_under (codex_window c now l w) ≡ true
all_under-present c now l o q w h (inl e) = all_under-first c now l o (q ∷ []) w h e
all_under-present c now l o q w h (inr e) =
    all_under-first c now l q [] w (all_under-rest c now l o (q ∷ []) h) e

-- Codex is available from a response only if it reports no limit, and each window that is present, in
-- either place, states a clock, and a usage that is below the quota and below the budget at its time.
pub codex_from_payload-available :
    (c : Curve) (now : ℕ) (rl : RateLimit) (w : Option CodexWindow)
    → (codex_from_payload c now (some rl)).available ≡ true
    → (rl.primary_window ≡ some w) ⊎ (rl.secondary_window ≡ some w)
    → (rl.limit_reached ≡ false) × IsClear c w
unfolding codex_from_payload windows_of
codex_from_payload-available c now rl w h p = codex_window-IsClear c now rl.limit_reached w (
    all_under-present c now rl.limit_reached rl.primary_window rl.secondary_window w (ground arith)
      p)
