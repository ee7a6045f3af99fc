-- ===== src/Queue/Heartbeat.antt =====
-- The worker registry (class WorkerHeartbeat of myapp/database.py) and its helpers in
-- myapp/services/analysis_queue.py.
pub mod Laws
use arcology.Base.{
  ℕ, zero, ◌+◌, ◌*◌, ◌-◌, ◌/◌, Bool, true, false, Option, none, some, List, [], ◌∷◌, ◌++◌, ltb,
  if◌then◌else◌, max, take, select, count, not,
}
use arcology.Base.Text.{Text, is_empty, same_text}

pub record WorkerHeartbeat : Type 0 where
  pub worker_id : Text
  pub last_seen : ℕ
  pub first_seen : ℕ
  pub hostname : Option Text

-- What the commit does: it holds, another request has inserted the same id, or it fails.
pub data Commit : Type 0 where
  committed integrity_error other_error : Commit

-- The freshness window is the argument `window` (ANALYSIS_WORKER_HEARTBEAT_WINDOW).
unfoldable pub heartbeat_min_write_interval : ℕ → ℕ
heartbeat_min_write_interval window = max 5 (window / 2)

unfoldable pub find_worker : Text → List WorkerHeartbeat → Option WorkerHeartbeat
find_worker w [] = none
find_worker w (r ∷ rs) = if same_text r.worker_id w then some r else find_worker w rs

-- `hostname or None`
abbrev pub or_none : Option Text → Option Text
or_none none = none
or_none (some h) = if is_empty h then none else some h

-- `row.last_seen = now`, and the hostname when one is given.
abbrev pub touch : ℕ → Option Text → WorkerHeartbeat → WorkerHeartbeat
touch now hostname r = record r {
  last_seen = now;
  hostname = elim (or_none hostname) [ none ↦ r.hostname | some h ↦ some h ];
}

unfoldable pub touch_worker : Text → ℕ → Option Text → List WorkerHeartbeat → List WorkerHeartbeat
touch_worker w now hostname [] = []
touch_worker w now hostname (r ∷ rs) =
    (if same_text r.worker_id w then touch now hostname r else r) ∷ touch_worker w now hostname rs

abbrev new_worker : Text → ℕ → Option Text → WorkerHeartbeat
new_worker w now hostname = record {
  worker_id = w;
  last_seen = now;
  first_seen = now;
  hostname = or_none hostname;
}

-- `(now - row.last_seen).total_seconds() < interval`, where the difference may be negative.
abbrev pub seen_recently : ℕ → ℕ → WorkerHeartbeat → Bool
seen_recently window now r = ltb now (r.last_seen + heartbeat_min_write_interval window)

-- The rows that `db.session.commit()` finds: a rollback leaves the old ones.
abbrev after_commit : Commit → List WorkerHeartbeat → List WorkerHeartbeat → List WorkerHeartbeat
after_commit committed old new = new
after_commit integrity_error old new = old
after_commit other_error old new = old

upsert : ℕ → Text → ℕ → Option Text → Commit → List WorkerHeartbeat → List WorkerHeartbeat
upsert window w now hostname outcome rows = elim (find_worker w rows) [
  | none ↦ after_commit outcome rows (rows ++ new_worker w now hostname ∷ [])
  | some r ↦
      if seen_recently window now r
      then rows
      else after_commit outcome rows (touch_worker w now hostname rows)
]

unfoldable pub record_worker_heartbeat :
    ℕ → Text → Option Text → ℕ → Commit → List WorkerHeartbeat → List WorkerHeartbeat
unfolding upsert find_worker touch_worker
record_worker_heartbeat window worker_id hostname now outcome rows =
    if is_empty worker_id then rows else upsert window (take 64 worker_id) now hostname outcome rows

-- `last_seen > now - window`, with no subtraction.
abbrev pub is_live : ℕ → ℕ → WorkerHeartbeat → Bool
is_live window now r = ltb now (r.last_seen + window)

unfoldable pub active_worker_count : ℕ → ℕ → List WorkerHeartbeat → ℕ
active_worker_count window now = count (is_live window now)

-- `last_seen < now - window * multiple`
abbrev pub is_aged : ℕ → ℕ → ℕ → WorkerHeartbeat → Bool
is_aged window multiple now r = ltb (r.last_seen + window * multiple) now

-- The rows that stay, and the number deleted.
unfoldable pub gc_stale_worker_heartbeats :
    ℕ → ℕ → ℕ → List WorkerHeartbeat → List WorkerHeartbeat × ℕ
gc_stale_worker_heartbeats window multiple now rows = (
  select (λ r. not (is_aged window multiple now r)) rows,
  count (is_aged window multiple now) rows,
)
