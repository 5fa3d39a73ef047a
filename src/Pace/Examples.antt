-- ===== src/Pace/Examples.antt =====
-- tauceti_worker/quota.py: small runs.
use tau_ceti_worker.Prelude.{
  ℕ, String, arith, ◌≡◌, refl, ◌+◌, ◌<◌, true, false, Option, none, some, List, [], ◌∷◌,
  if◌then◌else◌, string_eq, ◌==◌, lookup, insert, nat_eq, filter, all,
}
use tau_ceti_worker.Prelude.Int.{pos, negsuc, ◌-ℤ◌, ◌*ℤ◌}
use tau_ceti_worker.Pace.Curve.{
  Token, blank, pair, parsed, failed, parse_pace_curve, pace_curve, pace_budget, clamp,
  idle_init_block, on_segment, budget_from, plateau_from, pace_zero_plateau, read_points,
  read_token, read_pair, put_point, complete_curve, sorted_curve, sort_from, place_in, place,
  conflicting,
}
use tau_ceti_worker.Pace.Window.{
  number, text, session, weekly, window_from_reading, window_with, classify_window, classify_open,
  paced, status_at, carry, Window, carried, idle,
}
use tau_ceti_worker.Pace.Claude.{
  UsageRecord, session_group, weekly_group, Payload, object, null_entry, claude_readings,
  claude_window_reading, claude_reading, claude_record_state, record_state, clocked, usage_kind,
  reset_kind, governing, limits_record, claude_valid_until,
}
use tau_ceti_worker.Pace.Provider.{
  claude_from_payload, claude_provider, verdict, is_eligible, cached_claude, served, CacheEntry,
  some_of, is_idle, is_under, not_idle,
}
use tau_ceti_worker.Pace.Gate.{IsOpen, claude_from_payload-available}
use tau_ceti_worker.Pace.Cache.{IsAhead, cached_claude-IsAhead}
use tau_ceti_worker.Pace.Parsing.{IsPace, pace_curve-IsPace}
use tau_ceti_worker.Pace.Sorted.{points}
use tau_ceti_worker.Pace.Held.{parse_pace_curve-given}
use tau_ceti_worker.Pace.Line.{Rising, pace_curve-mono, ◌≤F◌, over}
use tau_ceti_worker.Pace.Plateau.{is_eligible-spendable}
use tau_ceti_worker.Pace.Codex.{
  CodexWindow, RateLimit, codex_from_payload, windows_of, codex_windows, codex_window, codex_clocks,
  clocks_of, reset_at,
}
use tau_ceti_worker.Pace.Closed.{IsClear, codex_from_payload-available}
use tau_ceti_worker.Prelude.{inl}
use tau_ceti_worker.Pace.Recovery.{exceeds, first_above, recovery_start, pace_recovery}
use tau_ceti_worker.Pace.Waiting.{pace_recovery-none}

abbrev instant : ℕ
instant = 1000000

-- Half of either window is left.
abbrev read_time : String → Option ℕ
read_time s = if s == "session" then some (instant + 9000) else some (instant + 302400)

abbrev usage : ℕ → String → UsageRecord
usage u s = record {
  percent = some (number (pos u));
  utilization = none;
  resets_at = some (text s);
}

-- The session stands in `limits`, the week in its flat record.
abbrev payload : Payload
payload = record {
  limits = some (
      none
      ∷ some (record { group = weekly_group; has_scope = true; entry = usage 99000000 "weekly" })
      ∷ some (record { group = session_group; has_scope = false; entry = usage 10000000 "session" })
      ∷ []);
  five_hour = some null_entry;
  seven_day = some (object (usage 5000000 "weekly"));
}

-- "50:70, ,0:10"
abbrev tokens : List Token
tokens = pair (pos 50000000) (pos 70000000) ∷ blank ∷ pair (pos 0) (pos 10000000) ∷ []

-- "90:0"
abbrev late : List Token
late = pair (pos 90000000) (pos 0) ∷ []

run_default :
    pace_curve []
    ≡ record { first = (0, 0); rest = (60000000, 40000000) ∷ (100000000, 100000000) ∷ [] }
unfolding pace_curve parse_pace_curve read_points complete_curve
run_default = refl

run_tokens :
    parse_pace_curve tokens
    ≡ parsed (record {
      first = (0, 10000000);
      rest = (50000000, 70000000) ∷ (100000000, 100000000) ∷ [];
    })
unfolding parse_pace_curve read_points read_token read_pair put_point complete_curve sorted_curve
    sort_from place_in place lookup insert
run_tokens = refl

run_conflict :
    parse_pace_curve (pair (pos 5) (pos 1) ∷ pair (pos 5) (pos 2) ∷ []) ≡ failed conflicting
unfolding parse_pace_curve read_points read_token read_pair put_point lookup insert
run_conflict = refl

run_payload : (claude_from_payload read_time (pace_curve []) payload instant).available ≡ true
unfolding claude_from_payload claude_provider verdict claude_readings claude_window_reading
    claude_reading claude_record_state record_state clocked usage_kind reset_kind governing
    limits_record window_from_reading window_with classify_window classify_open paced status_at
    carry pace_curve parse_pace_curve read_points complete_curve pace_budget budget_from on_segment
    clamp ◌-ℤ◌ ◌*ℤ◌
run_payload = refl

claude_from_payload-available_example : IsOpen read_time (pace_curve []) instant payload weekly
claude_from_payload-available_example =
    claude_from_payload-available read_time (pace_curve []) payload instant weekly run_payload

abbrev entry : Option CacheEntry
entry = some (record { payload = some payload; fetched_at = some instant })

run_cached : cached_claude read_time (instant + 100) entry ≡ some (payload, instant)
unfolding cached_claude served claude_valid_until claude_readings claude_window_reading
    claude_reading claude_record_state record_state clocked usage_kind reset_kind governing
    limits_record
run_cached = refl

cached_claude-IsAhead_example : IsAhead read_time (instant + 100) payload session
cached_claude-IsAhead_example =
    cached_claude-IsAhead read_time (instant + 100) entry payload instant session run_cached

pace_curve-IsPace_example : IsPace (pace_curve tokens)
pace_curve-IsPace_example = pace_curve-IsPace tokens

parse_pace_curve-given_example :
    lookup 0 (
      points (record {
        first = (0, 10000000);
        rest = (50000000, 70000000) ∷ (100000000, 100000000) ∷ [];
      }))
    ≡ some 10000000
parse_pace_curve-given_example =
    parse_pace_curve-given (pair (pos 50000000) (pos 70000000) ∷ blank ∷ []) [] 0 10000000
      (record { first = (0, 10000000); rest = (50000000, 70000000) ∷ (100000000, 100000000) ∷ [] })
      run_tokens

rising : Rising ((pace_curve []).first) ((pace_curve []).rest)
unfolding pace_curve parse_pace_curve read_points complete_curve
rising = ground arith

pace_curve-mono_example :
    pace_budget (pace_curve []) (clamp (negsuc 5) 3)
    ≤F pace_budget (pace_curve []) (clamp (pos 150000000) 3)
pace_curve-mono_example = pace_curve-mono [] (negsuc 5) (pos 150000000) 3 rising (omega arith)

run_blocked : idle_init_block (pace_curve late) ≡ some 90000000
unfolding idle_init_block pace_zero_plateau plateau_from pace_curve parse_pace_curve read_points
    read_token read_pair put_point complete_curve sorted_curve sort_from place_in place lookup
    insert
run_blocked = refl

abbrev idle_window : Window
idle_window = record {
  name = weekly;
  used = none;
  elapsed = none;
  resets_at = none;
  status = carried idle;
  budget = none;
}

run_eligible : is_eligible (pace_curve []) false (idle_window ∷ []) ≡ true
unfolding is_eligible idle_init_block pace_zero_plateau plateau_from pace_curve parse_pace_curve
    read_points complete_curve
run_eligible = refl

run_rest : (pace_curve []).rest ≡ (60000000, 40000000) ∷ (100000000, 100000000) ∷ []
unfolding pace_curve parse_pace_curve read_points complete_curve
run_rest = refl

is_eligible-spendable_example :
    (false ≡ false)
    × (some_of (filter is_idle (idle_window ∷ [])) ≡ true)
    × (all is_under (filter not_idle (idle_window ∷ [])) ≡ true)
    × (0 < (pace_budget (pace_curve []) (over 1 1000)).num)
is_eligible-spendable_example =
    is_eligible-spendable [] false (idle_window ∷ []) (60000000, 40000000)
      ((100000000, 100000000) ∷ []) 1 1000 run_eligible run_rest (omega arith) (omega arith)

abbrev codex_week : CodexWindow
codex_week = record {
  limit_window_seconds = some (number (pos 604800));
  reset_after_seconds = some (number (pos 302400));
  used_percent = some (number (pos 20000000));
}

abbrev rate_limit : RateLimit
rate_limit = record {
  limit_reached = false;
  primary_window = some (some codex_week);
  secondary_window = none;
}

run_codex : (codex_from_payload (pace_curve []) instant (some rate_limit)).available ≡ true
unfolding codex_from_payload windows_of codex_windows codex_window codex_clocks clocks_of reset_at
    classify_window classify_open paced status_at pace_curve parse_pace_curve read_points
    complete_curve pace_budget budget_from on_segment clamp
run_codex = refl

codex_from_payload-available_example : (false ≡ false) × IsClear (pace_curve []) (some codex_week)
codex_from_payload-available_example =
    codex_from_payload-available (pace_curve []) instant rate_limit (some codex_week) run_codex
      (inl refl)

abbrev flat_half : List Token
flat_half = pair (pos 0) (pos 50000000) ∷ pair (pos 100000000) (pos 50000000) ∷ []

run_flat : pace_recovery (pace_curve flat_half) (pos 60000000) (over 40000000 1) ≡ none
unfolding pace_recovery recovery_start first_above pace_curve parse_pace_curve read_points
    read_token read_pair put_point complete_curve sorted_curve sort_from place_in place pace_budget
    budget_from on_segment lookup insert
run_flat = refl

pace_recovery-none_example :
    exceeds (pace_budget (pace_curve flat_half) (over 90000000 1)) (pos 60000000) ≡ false
pace_recovery-none_example =
    pace_recovery-none flat_half (pos 60000000) 40000000 90000000 1 (omega arith) (omega arith)
      run_flat
