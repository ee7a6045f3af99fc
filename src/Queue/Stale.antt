-- ===== src/Queue/Stale.antt =====
-- reset_stale_analyses_core of myapp/services/analysis_queue.py: jobs with no sign of life are queued
-- again, or fail once their budget of resets is used up.
pub mod Laws
pub mod Poison
use arcology.Base.{
  ℕ, ◌+◌, Bool, true, false, not, ◌&&◌, Option, none, some, List, ltb, leb, if◌then◌else◌,
}
use arcology.Base.Int.{ℤ, pos, negsuc}
use arcology.Enums.{pending, failed, is_running}
use arcology.Queue.{Analysis, Message, went_stale, update, rowcount}

-- `func.coalesce(progress_updated_at, started_at)`
abbrev pub last_activity : Analysis → Option ℕ
last_activity a = elim a.progress_updated_at [ none ↦ a.started_at | some t ↦ some t ]

-- `status == RUNNING and last activity < now - timeout`; a comparison with NULL is not true.
unfoldable pub is_stale : ℕ → ℕ → Analysis → Bool
is_stale timeout now a =
    is_running a.status && elim (last_activity a) [ none ↦ false | some t ↦ ltb (t + timeout) now ]

abbrev pub dead_lettered : ℕ → ℕ → Analysis → Analysis
dead_lettered max_retries completed a = record a {
  status = failed;
  success = some false;
  error_message = some (went_stale max_retries);
  completed_at = some completed;
  progress_message = none;
  progress_current = none;
  progress_total = none;
  progress_updated_at = none;
}

abbrev pub requeued : Analysis → Analysis
requeued a = record a {
  status = pending;
  error_message = none;
  started_at = none;
  completed_at = none;
  tool_name = none;
  tool_version = none;
  output_url = none;
  output_path = none;
  success = none;
  summary = none;
  details = none;
  progress_message = none;
  progress_current = none;
  progress_total = none;
  progress_updated_at = none;
  stale_reset_count = a.stale_reset_count + 1;
}

-- The budget: STALE_JOB_MAX_RETRIES, if it is positive.
abbrev pub budget : ℤ → Option ℕ
budget (pos n) = if ltb 0 n then some n else none
budget (negsuc n) = none

-- The rows after both UPDATEs, the number queued again, and the number that failed.
unfoldable pub reset_stale :
    Option ℕ → (Analysis → Bool) → ℕ → List Analysis → List Analysis × ℕ × ℕ
reset_stale none stale completed rows = (update stale requeued rows, rowcount stale rows, 0)
reset_stale (some m) stale completed rows =
    let spent = λ (a : Analysis). stale a && leb m a.stale_reset_count in
    let kept = λ (a : Analysis). stale a && ltb a.stale_reset_count m in
    let rows' = update spent (dead_lettered m completed) rows in
    (update kept requeued rows', rowcount kept rows', rowcount spent rows)

-- The config values, the clock at the start (for the cutoff) and at the first UPDATE, and the rows.
unfoldable pub reset_stale_analyses_core : ℕ → ℤ → ℕ → ℕ → List Analysis → List Analysis × ℕ × ℕ
unfolding reset_stale is_stale
reset_stale_analyses_core timeout max_retries now completed =
    reset_stale (budget max_retries) (is_stale timeout now) completed
