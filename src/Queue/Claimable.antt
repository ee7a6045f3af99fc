-- ===== src/Queue/Claimable.antt =====
-- pending_claimable_query of myapp/services/analysis_queue.py, its ORDER BY, and the two claims that
-- use it: the task runner's (TaskRunner._claim_one) and the worker poll's filter and limit
-- (get_pending_analyses of myapp/blueprints/api.py).
pub mod Barrier
pub mod Order
pub mod Claim
use arcology.Base.{
  ℕ, Bool, true, false, not, ◌&&◌, ◌||◌, Option, none, some, List, [], ◌∷◌, ltb, ◌==◌,
  if◌then◌else◌, any, count, select, take,
}
use arcology.Base.Int.{ℤ, ltb_ℤ}
use arcology.Base.Result.{Result, ok, raised, ◌>>=◌}
use arcology.Enums.{
  AnalysisType, running, is_pending, is_running, is_cleanup, is_heavy, is_control_plane,
}
use arcology.Queue.{Analysis, update, rowcount}
use arcology.Queue.Cap.{CapError}

-- A comparison with a nullable column: NULL equals nothing.
abbrev pub is_some : Option ℕ → ℕ → Bool
is_some none n = false
is_some (some m) n = m == n

-- A row of the subquery `blocking_cleanup_artefacts` for the artefact `x`.
unfoldable pub blocks : ℕ → Analysis → Bool
blocks x r =
    is_cleanup r.analysis_type
    && (is_pending r.status || is_running r.status)
    && is_some r.artefact_id x

-- `or_(type == CLEANUP, artefact_id IS NULL, artefact_id NOT IN blocking_cleanup_artefacts)`
unfoldable pub passes_barrier : List Analysis → Analysis → Bool
unfolding blocks
passes_barrier rows a =
    is_cleanup a.analysis_type
    || elim a.artefact_id [ none ↦ true | some x ↦ not (any (blocks x) rows) ]

abbrev pub is_running_heavy : Analysis → Bool
is_running_heavy r = is_running r.status && is_heavy r.analysis_type

-- `or_(type NOT IN heavy_types, running_heavy < cap)`, where a cap resolved.
unfoldable pub under_cap : Option ℕ → List Analysis → Analysis → Bool
under_cap none rows a = true
under_cap (some cap) rows a =
    not (is_heavy a.analysis_type) || ltb (count is_running_heavy rows) cap

unfoldable pub is_claimable : Option ℕ → List Analysis → Analysis → Bool
is_claimable cap rows a = is_pending a.status && passes_barrier rows a && under_cap cap rows a

-- The flag is `apply_heavy_cap`; the cap is resolved only if it is set, and may raise.
unfoldable pub pending_claimable_query :
    Bool → Result CapError (Option ℕ) → List Analysis → Result CapError (List Analysis)
pending_claimable_query true resolved rows =
    resolved >>= λ cap. ok (select (is_claimable cap rows) rows)
pending_claimable_query false resolved rows = ok (select (is_claimable none rows) rows)

-- `order_by(priority.desc(), created_at)`: `before a b` when `a` must come first.
abbrev pub before : Analysis → Analysis → Bool
before a b =
    ltb_ℤ b.priority a.priority
    || (not (ltb_ℤ a.priority b.priority) && ltb a.created_at b.created_at)

-- Rows that tie keep the order of the table.
unfoldable pub insert : Analysis → List Analysis → List Analysis
insert a [] = a ∷ []
insert a (b ∷ bs) = if before b a then b ∷ insert a bs else a ∷ b ∷ bs

unfoldable pub order_by : List Analysis → List Analysis
unfolding insert
order_by [] = []
order_by (a ∷ as') = insert a (order_by as')

-- `.limit(1).first()`
abbrev pub first : List Analysis → Option Analysis
first [] = none
first (a ∷ as') = some a

-- The candidate of TaskRunner._claim_one.
unfoldable pub candidate : List Analysis → Option Analysis
unfolding order_by is_claimable
candidate rows = first (
    order_by
      (select (λ a. is_control_plane a.analysis_type) (select (is_claimable none rows) rows)))

-- What a worker is offered: `.filter(type IN valid_types)` if any is valid, order and limit(50).
unfoldable pub offered :
    (AnalysisType → Bool)
    → Result CapError (Option ℕ)
    → List Analysis
    → Result CapError (List Analysis)
unfolding pending_claimable_query order_by is_claimable
offered wanted resolved rows = pending_claimable_query true resolved rows >>= λ eligible.
    ok (take 50 (order_by (select (λ a. wanted a.analysis_type) eligible)))

-- The guard and the values of the atomic claim (`WHERE id = … AND status = PENDING`).
unfoldable pub is_claim_target : ℕ → Analysis → Bool
is_claim_target id a = a.id == id && is_pending a.status

-- The worker's claim in update_analysis of myapp/blueprints/api.py.
abbrev pub claimed_by_worker : ℕ → Analysis → Analysis
claimed_by_worker now a = record a { status = running; started_at = some now }

-- The task runner's claim.
abbrev pub claimed_by_runner : ℕ → Analysis → Analysis
claimed_by_runner now a = record a {
  status = running;
  started_at = some now;
  progress_updated_at = some now;
  error_message = none;
}

unfoldable pub worker_claim : ℕ → ℕ → List Analysis → List Analysis × Bool
unfolding is_claim_target
worker_claim id now rows = (
  update (is_claim_target id) (claimed_by_worker now) rows,
  ltb 0 (rowcount (is_claim_target id) rows),
)

-- The UPDATE runs on the table as it is by then, `rows'`, which other claimants may have changed.
unfoldable pub claim_one : ℕ → List Analysis → List Analysis → List Analysis × Option ℕ
unfolding candidate is_claim_target
claim_one now rows rows' = elim (candidate rows) [
  | none ↦ (rows', none)
  | some c ↦ (
    update (is_claim_target c.id) (claimed_by_runner now) rows',
    if rowcount (is_claim_target c.id) rows' == 1 then some c.id else none,
  )
]
