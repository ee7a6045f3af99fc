-- ===== src/Queue.antt =====
-- The analysis queue: the rows of the `analyses` table (class Analysis of myapp/database.py) and the
-- conditional UPDATE on them. The helpers of myapp/services/analysis_queue.py are in the modules
-- below. Times are whole ticks; priorities may be negative.
pub mod Heartbeat
pub mod Cap
pub mod Claimable
pub mod Stale
pub mod Rows
pub mod Lifecycle
use arcology.Base.{ℕ, Bool, Option, List, map, if◌then◌else◌, count}
use arcology.Base.Int.{ℤ}
use arcology.Base.Text.{Text}
use arcology.Enums.{AnalysisType, AnalysisStatus}

-- An `error_message`, by the f-string that builds it.
pub data Message : Type 0 where
  went_stale : ℕ → Message
  no_handler : AnalysisType → Message
  text : Text → Message

pub record Analysis : Type 0 where
  pub id : ℕ
  pub artefact_id : Option ℕ
  pub analysis_type : AnalysisType
  pub status : AnalysisStatus
  pub tool_name : Option Text
  pub tool_version : Option Text
  pub hints : Option Text
  pub output_url : Option Text
  pub output_path : Option Text
  pub success : Option Bool
  pub summary : Option Text
  pub details : Option Text
  pub error_message : Option Message
  pub progress_message : Option Text
  pub progress_current : Option ℕ
  pub progress_total : Option ℕ
  pub progress_updated_at : Option ℕ
  pub stale_reset_count : ℕ
  pub priority : ℤ
  pub created_at : ℕ
  pub started_at : Option ℕ
  pub completed_at : Option ℕ

-- `update(Analysis).where(p).values(...)`: every row that meets `p` takes the new values.
abbrev pub update_row : (Analysis → Bool) → (Analysis → Analysis) → Analysis → Analysis
update_row p f a = if p a then f a else a

abbrev pub update : (Analysis → Bool) → (Analysis → Analysis) → List Analysis → List Analysis
update p f = map (update_row p f)

-- `result.rowcount`
abbrev pub rowcount : (Analysis → Bool) → List Analysis → ℕ
rowcount = count
