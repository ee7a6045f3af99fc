-- ===== src/Api/Update.antt =====
-- update_analysis of myapp/blueprints/api.py: the worker's claim, its reports and the end of a job. The
-- search index and the similarity cache, which a completed job also writes, are other tables.
pub mod Reader
pub mod Alive
use arcology.Base.{
  ℕ, Bool, true, false, not, ◌&&◌, ◌||◌, Option, none, some, List, [], ◌∷◌, ◌==◌, if◌then◌else◌,
}
use arcology.Base.Text.{Text, codes}
use arcology.Enums.{AnalysisStatus, is_running}
use arcology.Queue.{Analysis, Message, text, update}
use arcology.Queue.Heartbeat.{WorkerHeartbeat, Commit, record_worker_heartbeat}
use arcology.Queue.Claimable.{worker_claim}
use arcology.Runner.{find}
use arcology.Api.{
  Field, is_given, set_field, says, status_of, nul_error, Response, bad_request, forbidden,
  not_found, deleted, updated, claim_answer,
}

pub record Patch : Type 0 where
  pub claim_worker : Bool
  pub heartbeat : Bool
  pub status : Field Text
  pub tool_name : Field Text
  pub tool_version : Field Text
  pub output_url : Field Text
  pub output_path : Field Text
  pub success : Field Bool
  pub summary : Field Text
  pub details : Field Text
  pub error_message : Field Text
  pub progress_message : Field Text
  pub progress_current : Field ℕ
  pub progress_total : Field ℕ

-- What the request is beside its body: whether its key is the worker's, which jobs another key may
-- view (_require_view_analysis; the worker sees all), the X-Worker-Id header, and how the two commits end. Every reading of the clock is `now`.
pub record Call : Type 0 where
  pub is_worker : Bool
  pub may_view : Analysis → Bool
  pub worker_id : Text
  pub now : ℕ
  pub is_deleted : Bool
  pub registry_commit : Commit

-- The tables that the handler writes.
pub record Tables : Type 0 where
  pub analyses : List Analysis
  pub workers : List WorkerHeartbeat

-- `error_message` is a column of messages.
abbrev pub set_message : Field Text → Option Message → Option Message
set_message none old = old
set_message (some none) old = none
set_message (some (some t)) old = some (text t)

unfoldable pub has_nul_error : Patch → Bool
has_nul_error p = nul_error (
    p.tool_name ∷ p.tool_version ∷ p.output_url ∷ p.output_path ∷ p.summary ∷ p.details
    ∷ p.error_message ∷ p.progress_message ∷ [])

-- `has_progress`
unfoldable pub has_progress : Patch → Bool
has_progress p =
    is_given p.progress_message || is_given p.progress_current || is_given p.progress_total

-- Whether a field of _WORKER_ONLY_FIELDS is given.
unfoldable pub is_worker_only : Patch → Bool
unfolding has_progress
is_worker_only p =
    is_given p.output_path
    || is_given p.status
    || is_given p.success
    || is_given p.details
    || is_given p.tool_name
    || is_given p.tool_version
    || is_given p.summary
    || is_given p.error_message
    || is_given p.output_url
    || has_progress p

abbrev pub is_ending : Patch → Bool
is_ending p = says p.status (codes "completed") || says p.status (codes "failed")

-- The status and the loop of `setattr`.
unfoldable pub set_fields : Patch → Option AnalysisStatus → Analysis → Analysis
set_fields p status a = record a {
  status = elim status [ none ↦ a.status | some s ↦ s ];
  tool_name = set_field p.tool_name a.tool_name;
  tool_version = set_field p.tool_version a.tool_version;
  output_url = set_field p.output_url a.output_url;
  output_path = set_field p.output_path a.output_path;
  success = set_field p.success a.success;
  summary = set_field p.summary a.summary;
  details = set_field p.details a.details;
  error_message = set_message p.error_message a.error_message;
  progress_message = set_field p.progress_message a.progress_message;
  progress_current = set_field p.progress_current a.progress_current;
  progress_total = set_field p.progress_total a.progress_total;
}

-- `value or now`, for the first start.
abbrev or_now : ℕ → Option ℕ → Option ℕ
or_now now none = some now
or_now now (some t) = some t

unfoldable pub stamp_times : ℕ → Patch → Analysis → Analysis
stamp_times now p a = record a {
  started_at = if says p.status (codes "running") then or_now now a.started_at else a.started_at;
  completed_at = if is_ending p then some now else a.completed_at;
}

-- `record_heartbeat`, on the row with its new status.
unfoldable pub is_beating : Call → Patch → Analysis → Bool
unfolding has_progress
is_beating c p a = c.is_worker && is_running a.status && (has_progress p || p.heartbeat)

unfoldable pub stamp_progress : Call → Patch → Analysis → Analysis
unfolding is_beating
stamp_progress c p a = if is_beating c p a then record a { progress_updated_at = some c.now } else a

unfoldable pub clear_progress : Patch → Analysis → Analysis
clear_progress p a =
    if is_ending p
    then record a {
      progress_message = none;
      progress_current = none;
      progress_total = none;
      progress_updated_at = none;
    }
    else a

unfoldable pub updated_row : Call → Patch → Option AnalysisStatus → Analysis → Analysis
unfolding set_fields stamp_times stamp_progress clear_progress
updated_row c p status a =
    clear_progress p (stamp_progress c p (stamp_times c.now p (set_fields p status a)))

-- The status to set, if one is given: `none` is a value that is not a status.
abbrev pub parsed : Option AnalysisStatus → Option (Option AnalysisStatus)
parsed none = none
parsed (some status) = some (some status)

abbrev pub new_status : Field Text → Option (Option AnalysisStatus)
new_status none = some none
new_status (some value) = parsed (status_of value)

-- The update of a row that was found.
unfoldable pub write_row : ℕ → Call → Patch → Analysis → Tables → Tables × Response
unfolding updated_row is_beating
write_row window c p a t = elim (new_status p.status) [
  | none ↦ (t, bad_request)
  | some status ↦ if c.is_deleted then (t, deleted) else (
    record {
      analyses = update (λ b. b.id == a.id) (updated_row c p status) t.analyses;
      workers =
          if is_beating c p (set_fields p status a)
          then record_worker_heartbeat window c.worker_id none c.now c.registry_commit t.workers
          else t.workers;
    },
    updated,
  )
]

-- The claim, with the deferred reset (apply_deferred_reanalysis_reset, where the row has its marker) as an
-- argument.
unfoldable pub claim_row :
    (Analysis → List Analysis → List Analysis) → ℕ → Call → Tables → Tables × Response
unfolding worker_claim find
claim_row deferred_reset id c t =
    let (rows, won) = worker_claim id c.now t.analyses in
    elim (find id rows) [
      | none ↦ (record t { analyses = rows }, not_found)
      | some a ↦
          (record t { analyses = if won then deferred_reset a rows else rows }, claim_answer won)
    ]

unfoldable pub update_analysis :
    (Analysis → List Analysis → List Analysis) → ℕ → ℕ → Call → Patch → Tables → Tables × Response
unfolding has_nul_error is_worker_only write_row claim_row
update_analysis deferred_reset window id c p t =
    if has_nul_error p
    then (t, bad_request)
    else if is_worker_only p && not c.is_worker
    then (t, forbidden)
    else if p.claim_worker && says p.status (codes "running")
    then (if not c.is_worker then (t, forbidden) else claim_row deferred_reset id c t)
    else elim (find id t.analyses) [
      | none ↦ (t, not_found)
      | some a ↦ if c.is_worker || c.may_view a then write_row window c p a t else (t, not_found)
    ]
