-- ===== src/Api/Requests.antt =====
-- request_analysis of myapp/blueprints/api.py. The lock on the artefact makes the search for an active job
-- and the insert one step. The artefact has been found and may be viewed.
pub mod Once
use arcology.Base.{
  ℕ, zero, suc, Bool, true, false, ◌&&◌, ◌||◌, Option, none, some, List, [], ◌∷◌, ◌++◌, any, ◌==◌,
  if◌then◌else◌,
}
use arcology.Base.Int.{pos}
use arcology.Base.Text.{Text, same_text}
use arcology.Enums.{AnalysisType, type_code, pending, is_pending, is_running}
use arcology.Queue.{Analysis}
use arcology.Api.{Field, nul_error, Response, bad_request, existing, created}

-- The job that is asked for. `none` is a type that AnalysisType does not have; a field that is missing is
-- read as null.
pub record Request : Type 0 where
  pub artefact_id : ℕ
  pub analysis_type : Option AnalysisType
  pub tool_name : Option Text
  pub hints : Option Text

-- `hints == …`, or `hints IS NULL`.
unfoldable pub same_hints : Option Text → Option Text → Bool
same_hints none none = true
same_hints (some s) (some t) = same_text s t
same_hints _ _ = false

abbrev pub is_on : ℕ → Option ℕ → Bool
is_on id none = false
is_on id (some i) = i == id

-- The row of the filter: of the artefact, the type and the hints, and PENDING or RUNNING.
unfoldable pub is_active_job : ℕ → AnalysisType → Option Text → Analysis → Bool
unfolding same_hints
is_active_job artefact_id analysis_type hints a =
    is_on artefact_id a.artefact_id
    && type_code a.analysis_type == type_code analysis_type
    && same_hints a.hints hints
    && (is_pending a.status || is_running a.status)

-- A new row, with the id and the time that the database and the clock give it.
abbrev pub new_job : ℕ → ℕ → Request → AnalysisType → Analysis
new_job id now r analysis_type = record {
  id = id;
  artefact_id = some r.artefact_id;
  analysis_type = analysis_type;
  status = pending;
  tool_name = r.tool_name;
  tool_version = none;
  hints = r.hints;
  output_url = none;
  output_path = none;
  success = none;
  summary = none;
  details = none;
  error_message = none;
  progress_message = none;
  progress_current = none;
  progress_total = none;
  progress_updated_at = none;
  stale_reset_count = 0;
  priority = pos 0;
  created_at = now;
  started_at = none;
  completed_at = none;
}

unfoldable pub has_request_nul : Request → Bool
has_request_nul r = nul_error (some r.tool_name ∷ some r.hints ∷ [])

unfoldable pub request_analysis : ℕ → ℕ → Request → List Analysis → List Analysis × Response
unfolding is_active_job has_request_nul
request_analysis id now r rows = elim r.analysis_type [
  | none ↦ (rows, bad_request)
  | some analysis_type ↦
      if has_request_nul r
      then (rows, bad_request)
      else if any (is_active_job r.artefact_id analysis_type r.hints) rows
      then (rows, existing)
      else (rows ++ (new_job id now r analysis_type ∷ []), created)
]
