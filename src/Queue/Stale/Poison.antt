-- ===== src/Queue/Stale/Poison.antt =====
-- A job that crashes or hangs every worker that claims it does not loop for ever.
use arcology.Base.{
  ℕ, suc, ◌+◌, ◌≤◌, ◌<◌, ◌≡◌, ◌∙◌, refl, ◌==◌, false, ◌⊎◌, inl, inr, none, some, List, [], ◌∷◌, map,
  arith, lt→ltb, All, length,
}
use arcology.Base.Int.{ℤ, pos}
use arcology.Enums.{failed, pending, is_running, is_pending}
use arcology.Queue.{Analysis, update, update_row}
use arcology.Queue.Claimable.{is_claim_target, claimed_by_worker, worker_claim}
use arcology.Queue.Stale.{is_stale, budget, reset_stale_analyses_core}
use arcology.Queue.Stale.Laws.{reset_row, reset_stale_rows}

-- One round: a worker claims the job `id` at `claimed`, shows no sign of life, and the stale reset runs
-- at `now`.
pub record Round : Type 0 where
  pub claimed : ℕ
  pub now : ℕ
  pub completed : ℕ

unfoldable pub round : ℕ → ℤ → ℕ → Round → List Analysis → List Analysis
round timeout max_retries id r rows =
    (reset_stale_analyses_core timeout max_retries r.now r.completed
      (worker_claim id r.claimed rows).0).0

unfoldable pub rounds : ℕ → ℤ → ℕ → List Round → List Analysis → List Analysis
unfolding round
rounds timeout max_retries id [] rows = rows
rounds timeout max_retries id (r ∷ rs) rows =
    rounds timeout max_retries id rs (round timeout max_retries id r rows)

-- The reset of the round comes after the timeout.
abbrev pub IsStalled : ℕ → Round → Type 0
IsStalled timeout r = r.claimed + timeout < r.now

-- Before `k` more rounds: another job, or the job has failed, or it waits with at most `k` resets left.
abbrev pub Left : ℕ → ℕ → ℕ → Analysis → Type 0
Left m id k a =
    ((a.id == id) ≡ false)
    ⊎ (a.status ≡ failed)
    ⊎ ((a.status ≡ pending)
        × (a.id ≡ id)
        × (a.progress_updated_at ≡ none)
        × (m < a.stale_reset_count + k)
        × (a.stale_reset_count ≤ m))

round_row :
    (timeout m id k : ℕ) (r : Round) (a : Analysis)
    → 0 < m
    → IsStalled timeout r
    → Left m id (suc k) a
    → Left m id k (
        reset_row
          (some m)
          timeout
          r.now
          r.completed
          (update_row (is_claim_target id) (claimed_by_worker r.claimed) a))
unfolding is_stale is_claim_target is_pending is_running
round_row timeout m id k r a m0 s (inl other) = inl (ground arith)
round_row timeout m id k r a m0 s (inr (inl f)) = inr (inl (ground arith))
round_row timeout m id k r a m0 s (inr (inr w)) = ground arith

All-round :
    (timeout m id k : ℕ) (r : Round) (rows : List Analysis)
    → 0 < m
    → IsStalled timeout r
    → All (Left m id (suc k)) rows
    → All (Left m id k) (
        map
          (reset_row (some m) timeout r.now r.completed)
          (update (is_claim_target id) (claimed_by_worker r.claimed) rows))
All-round timeout m id k r [] m0 s h = tt
All-round timeout m id k r (a ∷ rows) m0 s (h, hs) =
    (round_row timeout m id k r a m0 s h, All-round timeout m id k r rows m0 s hs)

round-Left :
    (timeout m id k : ℕ) (r : Round) (rows : List Analysis)
    → 0 < m
    → IsStalled timeout r
    → All (Left m id (suc k)) rows
    → All (Left m id k) (round timeout (pos m) id r rows)
unfolding round worker_claim
round-Left timeout m id k r rows m0 s h =
    let claimed = update (is_claim_target id) (claimed_by_worker r.claimed) rows in
    let e : budget (pos m) ≡ some m = rw (lt→ltb 0 m m0) in
    rw ((reset_stale_rows timeout (pos m) r.now r.completed claimed).0, e)
      (All-round timeout m id k r rows m0 s h)

-- Another job, or the job and FAILED.
abbrev pub HasFailed : ℕ → Analysis → Type 0
HasFailed id a = ((a.id == id) ≡ false) ⊎ (a.status ≡ failed)

All-failed : (m id : ℕ) (rows : List Analysis) → All (Left m id 0) rows → All (HasFailed id) rows
All-failed m id [] h = tt
All-failed m id (a ∷ rows) (inl other, hs) = (inl other, All-failed m id rows hs)
All-failed m id (a ∷ rows) (inr (inl f), hs) = (inr f, All-failed m id rows hs)
All-failed m id (a ∷ rows) (inr (inr w), hs) = absurd (omega arith)

reset_row-id :
    (timeout m id : ℕ) (r : Round) (a : Analysis)
    → (reset_row
        (some m)
        timeout
        r.now
        r.completed
        (update_row (is_claim_target id) (claimed_by_worker r.claimed) a)).id
      ≡ a.id
reset_row-id timeout m id r a = ground arith

map-ids :
    (timeout m id : ℕ) (r : Round) (rows : List Analysis)
    → map
        (λ a. a.id)
        (map
          (reset_row (some m) timeout r.now r.completed)
          (update (is_claim_target id) (claimed_by_worker r.claimed) rows))
      ≡ map (λ a. a.id) rows
map-ids timeout m id r [] = refl
map-ids timeout m id r (a ∷ rows) =
    rw (reset_row-id timeout m id r a, map-ids timeout m id r rows) refl

round-ids :
    (timeout m id : ℕ) (r : Round) (rows : List Analysis)
    → 0 < m
    → map (λ a. a.id) (round timeout (pos m) id r rows) ≡ map (λ a. a.id) rows
unfolding round worker_claim
round-ids timeout m id r rows m0 =
    let claimed = update (is_claim_target id) (claimed_by_worker r.claimed) rows in
    let e : budget (pos m) ≡ some m = rw (lt→ltb 0 m m0) in
    rw ((reset_stale_rows timeout (pos m) r.now r.completed claimed).0, e)
      (map-ids timeout m id r rows)

-- With a budget of `m` resets, a job that only stalls has failed after at most m + 1 rounds, whatever other jobs are
-- in the table: when more rounds pass than the job has resets left, each with its reset after the timeout, the job is
-- FAILED, and the table has the same jobs in the same order as before.
pub poison_ends :
    (timeout m id : ℕ) (rs : List Round) (rows : List Analysis)
    → 0 < m
    → All (IsStalled timeout) rs
    → All (Left m id (length rs)) rows
    → All (HasFailed id) (rounds timeout (pos m) id rs rows)
      × (map (λ a. a.id) (rounds timeout (pos m) id rs rows) ≡ map (λ a. a.id) rows)
unfolding rounds
poison_ends timeout m id [] rows m0 s h = (All-failed m id rows h, refl)
poison_ends timeout m id (r ∷ rs) rows m0 (s, ss) h =
    let (failed_then, same) =
      poison_ends timeout m id rs (round timeout (pos m) id r rows) m0 ss
        (round-Left timeout m id (length rs) r rows m0 s h) in
    (failed_then, same ∙ round-ids timeout m id r rows m0)
