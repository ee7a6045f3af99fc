-- ===== src/Queue/Heartbeat/Laws.antt =====
-- What a recorded heartbeat guarantees, and that a live worker stays counted.
use arcology.Base.{
  ℕ, ◌+◌, ◌*◌, ◌≤◌, ◌≡◌, refl, inl, inr, true, false, not, Option, none, some, List, [], ◌∷◌, ◌++◌,
  arith, ltb, take, count, select, length, Bool-cases, Option-cases,
}
use arcology.Base.Text.{Text, is_empty, same_text, same_text_iff}
use arcology.Queue.Heartbeat.{
  WorkerHeartbeat, committed, find_worker, touch_worker, touch, new_worker, seen_recently,
  heartbeat_min_write_interval, upsert, record_worker_heartbeat, is_live, active_worker_count,
  is_aged, gc_stale_worker_heartbeats,
}

find-append_none :
    (w : Text) (rows : List WorkerHeartbeat) (r : WorkerHeartbeat)
    → find_worker w rows ≡ none
    → same_text r.worker_id w ≡ true
    → find_worker w (rows ++ r ∷ []) ≡ some r
unfolding find_worker
find-append_none w [] r h e = ground arith
find-append_none w (x ∷ rows) r h e = ground (arith, find-append_none w rows r)

find-touch :
    (w : Text) (now : ℕ) (hostname : Option Text) (rows : List WorkerHeartbeat)
    (r : WorkerHeartbeat)
    → find_worker w rows ≡ some r
    → find_worker w (touch_worker w now hostname rows) ≡ some (touch now hostname r)
unfolding find_worker touch_worker
find-touch w now hostname [] r h = cc
find-touch w now hostname (x ∷ rows) r h = ground (arith, find-touch w now hostname rows r)

interval_pos : (window now : ℕ) → ltb now (now + heartbeat_min_write_interval window) ≡ true
unfolding heartbeat_min_write_interval
interval_pos window now = ground arith

le_mul : (a m : ℕ) → 1 ≤ m → a ≤ a * m
le_mul a m h = grind arith

-- After a heartbeat of a worker with an id is recorded, and the commit holds, the registry has a row
-- for the id (cut to 64 characters), seen within the minimum write interval.
recorded_recently :
    (window : ℕ) (worker_id : Text) (hostname : Option Text) (now : ℕ) (rows : List WorkerHeartbeat)
    → is_empty worker_id ≡ false
    → (r : WorkerHeartbeat) × (find_worker
          (take 64 worker_id)
          (record_worker_heartbeat window worker_id hostname now committed rows)
        ≡ some r)
      × (seen_recently window now r ≡ true)
unfolding record_worker_heartbeat
recorded_recently window worker_id hostname now rows h =
    let w = take 64 worker_id in
    elim (Option-cases (find_worker w rows)) [
      | inl e ↦ (
        new_worker w now hostname,
        rw (h, upsert) (rw (e, upsert) (find-append_none w rows _ e ((same_text_iff w w).1 refl))),
        just_now,
      )
      | inr (r, e) ↦ elim (Bool-cases (seen_recently window now r)) [
        | inl seen ↦ (r, ground arith, seen)
        | inr old ↦
            (touch now hostname r, ground (arith, find-touch w now hostname rows r), just_now)
      ]
    ]
  where
    just_now : ltb now (now + heartbeat_min_write_interval window) ≡ true
    just_now = interval_pos window now

-- A worker that is counted as live keeps its row in the garbage collection, for any multiple from 1
-- up, and the collection deletes as many rows as leave the registry.
gc_keeps_live :
    (window multiple now : ℕ) (rows : List WorkerHeartbeat)
    → 1 ≤ multiple
    → (active_worker_count window now (gc_stale_worker_heartbeats window multiple now rows).0
        ≡ active_worker_count window now rows)
      × (length (gc_stale_worker_heartbeats window multiple now rows).0
            + (gc_stale_worker_heartbeats window multiple now rows).1
          ≡ length rows)
unfolding gc_stale_worker_heartbeats active_worker_count
gc_keeps_live window multiple now rows m = (live rows, sizes rows)
  where
    live :
        (xs : List WorkerHeartbeat)
        → count (is_live window now) (select (λ r. not (is_aged window multiple now r)) xs)
          ≡ count (is_live window now) xs
    live [] = refl
    live (x ∷ xs) = ground (arith, live xs, le_mul window multiple)

    sizes :
        (xs : List WorkerHeartbeat)
        → length (select (λ r. not (is_aged window multiple now r)) xs)
            + count (is_aged window multiple now) xs
          ≡ length xs
    sizes [] = omega arith
    sizes (x ∷ xs) = ground (arith, sizes xs)
