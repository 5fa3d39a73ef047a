-- ===== src/Pace/Cache.antt =====
-- tauceti_worker/quota.py: when a cached payload may be served.
use tau_ceti_worker.Prelude.{ℕ, String, ◌≤◌, ◌<◌, arith, ◌≡◌, refl, Option, none, some}
use tau_ceti_worker.Prelude.{subst}
use tau_ceti_worker.Pace.Window.{window_s}
use tau_ceti_worker.Pace.Window.{WindowName, session, weekly, Reading}
use tau_ceti_worker.Pace.Claude.{
  Payload, Entry, null_entry, other_entry, object, UsageRecord, Kind, missing, explicit_null, bad,
  value, governing, usage_kind, reset_kind, record_state, clocked, claude_record_state,
  claude_reading, claude_readings, claude_window_reading, reading_from, clock_of, earlier,
  claude_valid_until,
}
use tau_ceti_worker.Pace.Provider.{CacheEntry, cached_claude, served, unless_passed}

-- The clock of an active reading.
abbrev pub clock : Reading → Option ℕ
clock r = clock_of r.state r.resets_at

-- A record that states a usage and a clock at t.
abbrev pub Stated : Kind ℕ → Kind ℕ → ℕ → Type 0
Stated uk rk t = (u : ℕ) × (uk ≡ value u) × (rk ≡ value t)

record_state-clock :
    (now length t : ℕ) (w : WindowName) (uk rk : Kind ℕ)
    → clock (reading_from w (record_state now length uk rk)) ≡ some t
    → Stated uk rk t
unfolding record_state clocked
record_state-clock now length t w (value u) (value s) h = (u, refl, ground arith)
record_state-clock now length t w bad k h = ground arith
record_state-clock now length t w missing bad h = ground arith
record_state-clock now length t w explicit_null bad h = ground arith
record_state-clock now length t w (value u) bad h = ground arith
record_state-clock now length t w missing (value s) h = ground arith
record_state-clock now length t w explicit_null (value s) h = ground arith
record_state-clock now length t w (value u) missing h = ground arith
record_state-clock now length t w (value u) explicit_null h = ground arith
record_state-clock now length t w missing missing h = ground arith
record_state-clock now length t w missing explicit_null h = ground arith
record_state-clock now length t w explicit_null missing h = ground arith
record_state-clock now length t w explicit_null explicit_null h = ground arith

earlier-le :
    (a b : Option ℕ) (t : ℕ)
    → earlier a b ≡ some t
    → (x : ℕ) × (y : ℕ) × (a ≡ some x) × (b ≡ some y) × (t ≤ x) × (t ≤ y)
earlier-le none b t h = ground arith
earlier-le (some x) none t h = ground arith
earlier-le (some x) (some y) t h = (x, y, refl, refl, ground arith, ground arith)

unless_passed-some :
    (now : ℕ) (d : Option ℕ) (o p : Payload) (f at : ℕ)
    → unless_passed now d o f ≡ some (p, at)
    → (t : ℕ) × (d ≡ some t) × (now < t) × (o ≡ p)
unless_passed-some now none o p f at h = ground arith
unless_passed-some now (some t) o p f at h = (t, refl, ground arith, ground arith)

module _ (timestamp : String → Option ℕ) where
  -- The record that decides on the window states a usage, and a clock after the instant.
  abbrev pub IsAhead : ℕ → Payload → WindowName → Type 0
  IsAhead now p w =
      (rec : UsageRecord) × (t : ℕ) × (governing w p ≡ some (object rec))
      × Stated (usage_kind rec) (reset_kind timestamp rec) t
      × (now < t)

  claude_reading-clock :
      (now t : ℕ) (w : WindowName) (e : Option Entry)
      → clock (claude_reading timestamp w now e) ≡ some t
      → (rec : UsageRecord) × (e ≡ some (object rec))
        × Stated (usage_kind rec) (reset_kind timestamp rec) t
  unfolding claude_reading claude_record_state
  claude_reading-clock now t w none h = ground arith
  claude_reading-clock now t w (some null_entry) h = ground arith
  claude_reading-clock now t w (some other_entry) h = ground arith
  claude_reading-clock now t w (some (object rec)) h = (
    rec,
    refl,
    record_state-clock now (window_s w) t w (usage_kind rec) (reset_kind timestamp rec) h,
  )

  window-IsAhead :
      (now t : ℕ) (p : Payload) (w : WindowName)
      → clock (claude_window_reading timestamp p now w) ≡ some t
      → now < t
      → IsAhead now p w
  unfolding claude_window_reading
  window-IsAhead now t p w h l =
      let found = claude_reading-clock now t w (governing w p) h in
      (found.0, t, found.1, found.2, l)

  both-clocks :
      (now deadline : ℕ) (p : Payload) (w : WindowName)
      → earlier
          (clock (claude_window_reading timestamp p now session))
          (clock (claude_window_reading timestamp p now weekly))
        ≡ some deadline
      → now < deadline
      → IsAhead now p w
  both-clocks now deadline p session h l =
      let e =
        earlier-le (clock (claude_window_reading timestamp p now session))
          (clock (claude_window_reading timestamp p now weekly)) deadline h in
      window-IsAhead now e.0 p session e.2 (omega arith)
  both-clocks now deadline p weekly h l =
      let e =
        earlier-le (clock (claude_window_reading timestamp p now session))
          (clock (claude_window_reading timestamp p now weekly)) deadline h in
      window-IsAhead now e.1 p weekly e.3 (omega arith)

  served-clocks :
      (now : ℕ) (o : Option Payload) (f : Option ℕ) (p : Payload) (at : ℕ) (w : WindowName)
      → served timestamp now o f ≡ some (p, at)
      → IsAhead now p w
  unfolding served claude_valid_until claude_readings
  served-clocks now none f p at w h = ground arith
  served-clocks now (some o) none p at w h = ground arith
  served-clocks now (some o) (some f) p at w h =
      let until =
        unless_passed-some now (claude_valid_until (claude_readings timestamp (some o) now)) o p f
          at h in
      subst (λ x. IsAhead now x w) until.3 (both-clocks now until.0 o w until.1 until.2)

  -- A cached Claude payload is served only while, for the session and for the week, the record that
  -- decides states a usage and a clock that is still ahead.
  pub cached_claude-IsAhead :
      (now : ℕ) (entry : Option CacheEntry) (p : Payload) (at : ℕ) (w : WindowName)
      → cached_claude timestamp now entry ≡ some (p, at)
      → IsAhead now p w
  unfolding cached_claude
  cached_claude-IsAhead now none p at w h = ground arith
  cached_claude-IsAhead now (some e) p at w h = served-clocks now e.payload e.fetched_at p at w h
