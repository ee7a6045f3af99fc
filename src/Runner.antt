-- ===== src/Runner.antt =====
-- myapp/taskrunner/runner.py: the job operations of class TaskRunner on the `analyses` table. The
-- periodic tasks and the main loop are in Runner.Loop. A job function (a value of DISPATCH, in
-- myapp/taskrunner/dispatch.py) is an argument: it returns a result, or raises, and it leaves the
-- table as it has committed it.
pub mod Loop
pub mod Jobs
use arcology.Base.{
  ℕ, Bool, true, false, not, ◌&&◌, Option, none, some, List, [], ◌∷◌, ◌==◌, if◌then◌else◌, take,
}
use arcology.Base.Text.{Text}
use arcology.Enums.{AnalysisType, AnalysisStatus, completed, failed, is_running}
use arcology.Queue.{Analysis, Message, text, no_handler, update}
use arcology.Queue.Claimable.{claim_one}

-- The result dict: its 'summary', and its JSON text.
pub record JobResult : Type 0 where
  pub summary : Option Text
  pub json : Text

pub data Outcome : Type 0 where
  returned : JobResult → Outcome
  job_cancelled : Outcome
  other_exception : Text → Outcome

abbrev pub Handler : Type 0
Handler = Analysis → List Analysis → List Analysis × Outcome

-- `db.session.get(Analysis, id)`
unfoldable pub find : ℕ → List Analysis → Option Analysis
find id [] = none
find id (a ∷ rows) = if a.id == id then some a else find id rows

-- `values[...]` is set only for an argument that is not None.
abbrev pub given {ℓ} : {A : Type ℓ} → Option A → Option A → Option A
given none old = old
given (some v) old = some v

abbrev has_id : ℕ → Analysis → Bool
has_id id a = a.id == id

-- The callback of _make_heartbeat.
unfoldable pub heartbeat : ℕ → ℕ → Option ℕ → Option ℕ → Option Text → List Analysis → List Analysis
heartbeat id now current total label = update (has_id id) (λ a. record a {
  progress_updated_at = some now;
  progress_message = given label a.progress_message;
  progress_current = given current a.progress_current;
  progress_total = given total a.progress_total;
})

-- The callback of _make_check_cancelled: whether it raises JobCancelled.
unfoldable pub check_cancelled : ℕ → List Analysis → Bool
unfolding find
check_cancelled id rows = elim (find id rows) [ none ↦ true | some a ↦ not (is_running a.status) ]

-- `WHERE id = … AND status = RUNNING`
unfoldable pub is_running_job : ℕ → Analysis → Bool
is_running_job id a = a.id == id && is_running a.status

abbrev pub completed_row : ℕ → JobResult → Analysis → Analysis
completed_row now result a = record a {
  status = completed;
  success = some true;
  summary = result.summary;
  details = some result.json;
  completed_at = some now;
}

abbrev pub failed_row : ℕ → Message → Analysis → Analysis
failed_row now message a = record a {
  status = failed;
  success = some false;
  error_message = some message;
  completed_at = some now;
}

unfoldable pub complete : ℕ → ℕ → JobResult → List Analysis → List Analysis
complete id now result = update (is_running_job id) (completed_row now result)

unfoldable pub fail : ℕ → ℕ → Message → List Analysis → List Analysis
fail id now message = update (is_running_job id) (failed_row now message)

-- The `try` around the handler, and what follows it.
unfoldable pub finish : ℕ → ℕ → List Analysis × Outcome → List Analysis
unfolding complete fail
finish id now (rows, returned result) = complete id now result rows
finish id now (rows, job_cancelled) = rows
finish id now (rows, other_exception message) = fail id now (text (take 2000 message)) rows

unfoldable pub process :
    (AnalysisType → Option Handler) → ℕ → Analysis → List Analysis → List Analysis
unfolding finish
process dispatch now a rows = elim (dispatch a.analysis_type) [
  | none ↦ fail a.id now (no_handler a.analysis_type) rows
  | some handler ↦ finish a.id now (handler a rows)
]

-- claim_and_process: `rows` is the table that the candidate query reads, `rows'` the one that the
-- atomic UPDATE meets, `claimed` and `ended` are the two clock readings.
unfoldable pub claim_and_process :
    (AnalysisType → Option Handler) → ℕ → ℕ → List Analysis → List Analysis → List Analysis × ℕ
unfolding process find
claim_and_process dispatch claimed ended rows rows' =
    let (taken, job) = claim_one claimed rows rows' in
    elim job [
      | none ↦ (taken, 0)
      | some id ↦ elim (find id taken) [
        | none ↦ (taken, 0)
        | some a ↦ (process dispatch ended a taken, 1)
      ]
    ]
