-- ===== src/Lib.antt =====
-- TauCetiWorker: a harness of worker processes that review, repair and author pull requests on a
-- shared repository, and share a budget, a review cache, Git leases and saved checkpoints.
--
-- The parts, and how they interact: a worker takes a provider whose usage is under the pace that
-- the operator set (quota.py); before a paid launch it passes the fleet policy (fleet_capacity.py)
-- and is admitted by the budget (budget.py); what it is spent on is decided from the review state
-- of a pull request (review_state.py, fix_disposition in survey.py), under a shared lease
-- (overlap_state.py); interrupted work is found again through the recovery index
-- (recovery_index.py), calls for a round (due) and is published only within its first authorization
-- (policy, both in repair_recovery.py), or for one foreign fork by an operator (repair_route.py).
-- What is written to GitHub goes through a retained outbox (github_outbox.py), and the security
-- audit reads its input page by page (audit_reader.py).
--
-- The files:
--   Prelude: what the others share (equality tests, dictionaries, lists, integers, sums).
--   Budget: tauceti_worker/budget.py. State, Ledger (replay, current, accrue, append), Estimate, Queue
--     (waiting), Admission (admit), Settlement (configure, settle, reconcile, cooldown, repair), and for
--     settle_receipt Cumulative (the totals of a provider), Evidence (what a receipt says) and Booking,
--     and Recovery (recover_usage). Replay, Funds, Books, Receipts and Quartile hold theorems; Corrected,
--     Native, Outcome, Charged, Acceptance, Charges and Telescope those on provider receipts, Prefixed
--     and Repeats those on recoveries.
--   Review: tauceti_worker/review_state.py. State, Cache (observe, gh_meta, newest_contest_reply, bust,
--     with shared_read and invalidate of tauceti_worker/github_transport.py),
--     Board (the predicates of a scoreboard), and Disposition (fix_disposition of
--     tauceti_worker/survey.py). Freshness and Verdicts hold theorems.
--   Overlap: tauceti_worker/overlap_state.py. State (read, cas, cursor, advance) and Lease (acquire,
--     require, _heartbeat, release). Exclusion and Swap hold theorems.
--   Grants: Fleet (tauceti_worker/fleet_capacity.py), Route (tauceti_worker/repair_route.py), Policy
--     (policy of tauceti_worker/repair_recovery.py) and Profile (resolve_authoring_profile of
--     tauceti_worker/agents.py).
--   Outbox: tauceti_worker/github_outbox.py. State (archive, may_send, sending), Classify (finish),
--     Evidence and Forks and Reconcile (reconcile), Drain (drain, the end of a first attempt, and the
--     operator's retry and abandon). Server says what it means that a reply is honest and that the reads
--     show what took effect, and Steps what may happen to a publication; Once, Alike, Turns and Lifetime
--     follow one intent, and Evident one turn.
--   Pace: tauceti_worker/quota.py. Curve (parse_pace_curve to _idle_init_block), Window
--     (_classify_window), Claude (the readings of a usage response), Provider (_claude_provider,
--     _cached_claude, choose), Codex and Recovery (pace_recovery). Sorted, Parsing and Held follow a
--     specification, Line, Plateau and Waiting the budget, Gate, Closed and Cache a payload.
--   Audit: Pages and Reader (tauceti_worker/audit_reader.py) and Coverage (coverage of
--     tauceti_worker/audit_progress.py, validate_reads of tauceti_worker/security_audit.py). Cutting and
--     Packing follow the pages, Session, Restart and Delivery the reader and its client, Order, Counter,
--     Standing and Receipts the reader as a counter of pages.
--   Recovery: Index (tauceti_worker/recovery_index.py; `find` is its lookup) with Verified, and Due (due
--     of tauceti_worker/repair_recovery.py) with Timely.
-- The Examples of a folder are small runs.
--
-- How the state is read: a method is a function from its state to its answer and the next state; an
-- exception is an error value. The ledger is the list of its complete lines, with a flag for a torn
-- last line. Amounts are whole nano-dollars, rates nano-dollars an hour, times microseconds, or
-- seconds in Overlap expiries, Due, Outbox and Pace; percentages of a quota are millionths of a
-- percent; an accrual is rounded down, and so is the share of an estimate in settle_receipt. A
-- constant that the environment may set stands at its default. A pass over the outbox holds the lock of an intent for its whole turn. A first attempt holds
-- it when it marks the intent as sending, and again when it files the reply; its command runs
-- unlocked in between, and these are separate steps of Outbox/Steps. That no pass takes up the
-- intent in between is a condition there, since the code does not prevent it. A pass keeps, as a
-- ghost, the list of the commands it ran. The fuel of sections_from
-- is one more than the length of the text, and each round cuts off a character; every other loop
-- runs over a list.
--
-- What is a parameter: the clock and the processes that admission and receipts ask about, the usage
-- that a stopped invocation has saved and the stamp of its checkpoint, what GitHub answers,
-- the parsers of scoreboards and contest replies, Git, hashing, the length of encoded JSON, the
-- instant of a timestamp, and Python's text functions where a test depends on them. The laws asked
-- of them stand in the theorems that need them (GitLaws, and that a fetch that failed holds no
-- scoreboard).
--
-- What is not modelled: `Budget.recover` (budget_recovery.py), the bulk recovery of stopped sessions,
-- which appends corrections and settlements to the same ledger, so that it is no step of
-- Budget/Books/Reach; the budget's snapshot, which only reports; of the outbox the
-- preparation of a write, superseding an edit and the asset files; of the quota the
-- wall-clock time of a recovery, the credentials and the ledger of bootstraps; verification storage,
-- the survey's selection, and the reviewer processes of the security audit; and the GitHub transport
-- but for its shared reads, provider processes, the command line and the dashboards, which are input and output.
mod Prelude
pub mod Budget
pub mod Review
pub mod Overlap
pub mod Grants
pub mod Recovery
pub mod Outbox
pub mod Pace
pub mod Audit
