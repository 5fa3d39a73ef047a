-- ===== src/Review/Disposition.antt =====
-- tauceti_worker/survey.py: `fix_disposition`, with its reasons as data in place of their texts.
use tau_ceti_worker.Review.Board.{is_empty}
use tau_ceti_worker.Prelude.{
  arith, string_eq, leb, ◌||◌, ◌&&◌, ◌↔◌, not, false, ◌≡◌, ◌==◌, true, if◌then◌else◌, Bool, ℕ,
  String,
}
use tau_ceti_worker.Review.State.{Provenance, Meta, fresh, assumed, stale, missing, fetch_failed}

abbrev pub max_fix_attempts : ℕ
max_fix_attempts = 6

pub data Disposition : Type 0 where
  skip actionable : Disposition
  unconfirmed awaiting_first_review all_green no_verdicts contested : Disposition
  head_moved : String → String → Disposition
  exhausted : ℕ → Disposition

-- A failed live fetch, with or without a value to fall back on.
abbrev pub is_unconfirmed : Provenance → Bool
is_unconfirmed fetch_failed = true
is_unconfirmed stale = true
is_unconfirmed fresh = false
is_unconfirmed assumed = false
is_unconfirmed missing = false

unfoldable pub fix_disposition : Meta → String → Bool → Bool → ℕ → Bool → Bool → Disposition
fix_disposition meta head build_success blocking per_head pending_contest unlimited =
    let lh = meta.board.head_sha in
    if not (lh == head) && not build_success
    then skip
    else if is_unconfirmed meta.provenance
    then unconfirmed
    else if not (lh == head)
    then (if lh == "" then awaiting_first_review else head_moved lh head)
    else if not blocking
    then (if not (is_empty meta.board.states) || not (is_empty meta.board.runs)
        then all_green
        else no_verdicts)
    else if pending_contest
    then contested
    else if not unlimited && leb max_fix_attempts per_head
    then exhausted per_head
    else actionable

-- What a fixer may be spent on.
pub record IsFixable (meta : Meta) (head : String) (blocking : Bool) (per_head : ℕ)
    (pending_contest unlimited : Bool) : Type 0 where
  pub at_head : (meta.board.head_sha == head) ≡ true
  pub confirmed : is_unconfirmed meta.provenance ≡ false
  pub blocked : blocking ≡ true
  pub settled : pending_contest ≡ false
  pub in_budget : (unlimited || not (leb max_fix_attempts per_head)) ≡ true

fixable :
    (meta : Meta) (head : String) (build_success blocking : Bool) (per_head : ℕ)
    (pending_contest unlimited : Bool)
    → fix_disposition meta head build_success blocking per_head pending_contest unlimited
      ≡ actionable
    → IsFixable meta head blocking per_head pending_contest unlimited
unfolding fix_disposition
fixable meta head build_success blocking per_head pending_contest unlimited h = record {
  at_head = ground arith;
  confirmed = ground arith;
  blocked = ground arith;
  settled = ground arith;
  in_budget = ground arith;
}

-- A PR is actionable exactly if its review stands at the current head, the last fetch did not fail,
-- it blocks, no contest is pending, and fewer than six attempts were made or they are unlimited.
pub fix_disposition-actionable :
    (meta : Meta) (head : String) (build_success blocking : Bool) (per_head : ℕ)
    (pending_contest unlimited : Bool)
    → (fix_disposition meta head build_success blocking per_head pending_contest unlimited
        ≡ actionable)
      ↔ IsFixable meta head blocking per_head pending_contest unlimited
unfolding fix_disposition
fix_disposition-actionable meta head build_success blocking per_head pending_contest unlimited = (
  λ h. fixable meta head build_success blocking per_head pending_contest unlimited h,
  λ f.
      let at_head = f.at_head in
      let confirmed = f.confirmed in
      let blocked = f.blocked in
      let settled = f.settled in let in_budget = f.in_budget in ground arith,
)
