-- ===== src/Runner/Jobs.antt =====
-- What the task runner leaves in the table: cancellations survive, jobs end, heartbeats keep a job
-- from going stale.
use mathlib.Core.Option
use arcology.Base.{
  ℕ, ◌+◌, ◌≤◌, ◌≡◌, ◌≢◌, refl, ◌∙◌, ◌↔◌, inl, inr, true, false, ◌&&◌, Option, none, some, List, [],
  ◌∷◌, map, arith, count, any, Option-cases, ◌==◌, if◌then◌else◌, take,
}
use arcology.Base.Text.{Text}
use arcology.Enums.{AnalysisType, is_running}
use arcology.Queue.{Analysis, Message, text, no_handler}
use arcology.Queue.Rows.{update_clears}
use arcology.Queue.Stale.{is_stale}
use arcology.Queue.Claimable.{candidate, claim_one}
use arcology.Queue.Claimable.Claim.{claim_one_won}
use arcology.Runner.{
  JobResult, Outcome, returned, job_cancelled, other_exception, Handler, find, heartbeat,
  check_cancelled, is_running_job, completed_row, failed_row, complete, fail, finish, process,
  claim_and_process,
}

-- What the end of a job does to the job's own row, while it is still RUNNING.
abbrev pub ended : ℕ → Outcome → Analysis → Analysis
ended now (returned result) a = if is_running a.status then completed_row now result a else a
ended now job_cancelled a = a
ended now (other_exception message) a =
    if is_running a.status then failed_row now (text (take 2000 message)) a else a

map_same : (now : ℕ) (o : Option Analysis) → o ≡ Option.map (ended now job_cancelled) o
map_same now none = refl
map_same now (some a) = refl

-- For every outcome of the handler, the job's row is completed, failed or left alone as `ended` says:
-- a row that a canceller has moved away from RUNNING is not overwritten.
find-finish :
    (id now : ℕ) (rows : List Analysis) (out : Outcome)
    → find id (finish id now (rows, out)) ≡ Option.map (ended now out) (find id rows)
unfolding find finish is_running_job
find-finish id now [] (returned r) = refl
find-finish id now [] job_cancelled = refl
find-finish id now [] (other_exception m) = refl
find-finish id now (a ∷ rows) (returned r) = ground (arith, find-finish id now rows (returned r))
find-finish id now (a ∷ rows) job_cancelled = map_same now (find id (a ∷ rows))
find-finish id now (a ∷ rows) (other_exception m) =
    ground (arith, find-finish id now rows (other_exception m))

-- The cancellation check passes exactly when the job's row is there and RUNNING.
pub check_cancelled_iff :
    (id : ℕ) (rows : List Analysis)
    → (check_cancelled id rows ≡ false)
      ↔ ((a : Analysis) × (find id rows ≡ some a) × (is_running a.status ≡ true))
unfolding check_cancelled
check_cancelled_iff id rows = (
  (λ h. elim (Option-cases (find id rows)) [
    | inl e ↦ ground arith
    | inr (a, e) ↦ (a, e, ground arith)
  ]),
  (λ (a, e, r). ground arith),
)

-- After a heartbeat at `now`, no stale reset within the timeout takes the job: no row with its id is
-- stale at any time up to `now + timeout`. The heartbeat changes no status.
heartbeat-not_stale :
    (id now timeout later : ℕ) (current total : Option ℕ) (label : Option Text)
    (rows : List Analysis)
    → later ≤ now + timeout
    → (any
          (λ a. (a.id == id) && is_stale timeout later a)
          (heartbeat id now current total label rows)
        ≡ false)
      × (map (λ (a : Analysis). a.status) (heartbeat id now current total label rows)
          ≡ map (λ (a : Analysis). a.status) rows)
unfolding heartbeat is_stale
heartbeat-not_stale id now timeout later current total label [] h = (refl, refl)
heartbeat-not_stale id now timeout later current total label (a ∷ rows) h =
    ground (arith, heartbeat-not_stale id now timeout later current total label rows h)

completed_not_running :
    (id now : ℕ) (r : JobResult) (a : Analysis) → is_running_job id (completed_row now r a) ≡ false
unfolding is_running_job is_running
completed_not_running id now r a = ground arith

failed_not_running :
    (id now : ℕ) (m : Message) (a : Analysis) → is_running_job id (failed_row now m a) ≡ false
unfolding is_running_job is_running
failed_not_running id now m a = ground arith

finish_ends :
    (id now : ℕ) (rows : List Analysis) (out : Outcome)
    → out ≢ job_cancelled
    → count (is_running_job id) (finish id now (rows, out)) ≡ 0
unfolding finish complete fail
finish_ends id now rows (returned r) h =
    update_clears (is_running_job id) (completed_row now r) rows (completed_not_running id now r)
finish_ends id now rows job_cancelled h = absurd (h refl)
finish_ends id now rows (other_exception m) h =
    update_clears (is_running_job id) _ rows (failed_not_running id now (text (take 2000 m)))

-- The job with this id is in the table, and its handler, called with it and the table, raises JobCancelled.
abbrev pub IsCancelled : (AnalysisType → Option Handler) → ℕ → List Analysis → Type 0
IsCancelled dispatch id rows =
    (a : Analysis) × (f : Handler) × (find id rows ≡ some a)
    × (dispatch a.analysis_type ≡ some f)
    × ((f a rows).1 ≡ job_cancelled)

process_ends :
    (dispatch : AnalysisType → Option Handler) (id now : ℕ) (a : Analysis) (rows : List Analysis)
    → find id rows ≡ some a
    → ¬ IsCancelled dispatch id rows
    → count (is_running_job a.id) (process dispatch now a rows) ≡ 0
unfolding process
process_ends dispatch id now a rows found never = elim (Option-cases (dispatch a.analysis_type)) [
  | inl e ↦
      rw (e, process)
        (unfold fail in
          update_clears (is_running_job a.id) _ rows
            (failed_not_running a.id now (no_handler a.analysis_type)))
  | inr (f, e) ↦
      rw (e, process)
        (finish_ends a.id now (f a rows).0 (f a rows).1 (λ c. never (a, f, found, e, c)))
]

find-id : (id : ℕ) (rows : List Analysis) (a : Analysis) → find id rows ≡ some a → a.id ≡ id
unfolding find
find-id id [] a h = cc
find-id id (b ∷ rows) a h = ground (arith, find-id id rows a)

-- A job that the task runner has claimed and processed is no longer RUNNING, whether its handler returned, raised or
-- was missing, unless the handler, called on the claimed job, raised JobCancelled.
pub claim_and_process_ends :
    (dispatch : AnalysisType → Option Handler) (claimed now : ℕ) (rows rows' : List Analysis)
    (c : Analysis)
    → ¬ IsCancelled dispatch c.id (claim_one claimed rows rows').0
    → candidate rows ≡ some c
    → (claim_and_process dispatch claimed now rows rows').1 ≡ 1
    → count (is_running_job c.id) (claim_and_process dispatch claimed now rows rows').0 ≡ 0
unfolding claim_and_process
claim_and_process_ends dispatch claimed now rows rows' c never e h =
    elim (Option-cases (claim_one claimed rows rows').1) [
      | inl no_job ↦ cc (rw (no_job, claim_and_process) at h)
      | inr (id, job) ↦ elim (Option-cases (find id (claim_one claimed rows rows').0)) [
        | inl gone ↦ cc (rw (job, claim_and_process) at h, gone)
        | inr (a, found) ↦
            let won = claim_one_won claimed id rows rows' c e job in
            let same : a.id ≡ c.id = find-id id _ a found ∙ won.0 in
            rw (job, claim_and_process)
              (rw (found, claim_and_process)
                (rw (← same) (
                  process_ends dispatch id now a (claim_one claimed rows rows').0 found
                    (rw won.0 never))))
      ]
    ]
