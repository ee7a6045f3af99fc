-- ===== src/Tests/Jobs.antt =====
-- Queue.Lifecycle and Api on a table of two jobs.
use arcology.Base.{◌≡◌, refl, true, false, ◌||◌, none, some, List, [], ◌∷◌, All, map, arith}
use arcology.Base.Text.{codes, same_text}
use arcology.Enums.{file_extraction, is_pending, type_code}
use arcology.Queue.{Analysis}
use arcology.Queue.Heartbeat.{committed}
use arcology.Queue.Lifecycle.{Evolves, worker_claims, perform, perform-Evolves}
use arcology.Api.{nul_error}
use arcology.Api.Update.{Patch, Call, Tables, has_nul_error, has_progress, update_analysis}
use arcology.Api.Update.Reader.{update_analysis-reader}
use arcology.Api.Update.Alive.{IsAlive, update_analysis-IsAlive}
use arcology.Api.Requests.{Request, request_analysis}

abbrev extraction : Request
extraction = record {
  artefact_id = 7;
  analysis_type = some file_extraction;
  tool_name = none;
  hints = some (codes "disc0");
}

abbrev other_extraction : Request
other_extraction = record extraction { hints = none }

-- The table after two requests that differ in their hints, a second one like the first, and a claim.
abbrev table : List Analysis
table =
    (request_analysis 2 12 other_extraction
      (request_analysis 1 11 extraction (request_analysis 1 10 extraction []).0).0).0

table_ids : map (λ a. a.id) table ≡ 1 ∷ 2 ∷ []
unfolding request_analysis same_text type_code nul_error is_pending
table_ids = refl

perform-Evolves_example : Evolves table (perform (worker_claims 1 30) table)
perform-Evolves_example = perform-Evolves (worker_claims 1 30) table

abbrev empty_patch : Patch
empty_patch = record {
  claim_worker = false;
  heartbeat = true;
  status = none;
  tool_name = none;
  tool_version = none;
  output_url = none;
  output_path = none;
  success = none;
  summary = none;
  details = none;
  error_message = none;
  progress_message = none;
  progress_current = none;
  progress_total = none;
}

abbrev worker_call : Call
worker_call = record {
  is_worker = true;
  may_view = λ a. false;
  worker_id = codes "w1";
  now = 50;
  is_deleted = false;
  registry_commit = committed;
}

abbrev reader_call : Call
reader_call = record worker_call { is_worker = false; may_view = λ a. true }

abbrev no_reset : Analysis → List Analysis → List Analysis
no_reset a rows = rows

abbrev tables : Tables
tables = record { analyses = perform (worker_claims 1 30) table; workers = [] }

-- What a reader tries: to complete the job.
abbrev forged_patch : Patch
forged_patch = record empty_patch { status = some (some (codes "completed")) }

update_analysis-reader_example :
    (update_analysis no_reset 60 1 reader_call forged_patch tables).0 ≡ tables
update_analysis-reader_example =
    update_analysis-reader no_reset 60 1 reader_call forged_patch tables refl

clean_patch : has_nul_error empty_patch ≡ false
unfolding has_nul_error nul_error
clean_patch = refl

beating_patch : (has_progress empty_patch || true) ≡ true
unfolding has_progress
beating_patch = refl

update_analysis-IsAlive_example :
    All (IsAlive 1 60 110) (update_analysis no_reset 60 1 worker_call empty_patch tables).0.analyses
update_analysis-IsAlive_example =
    update_analysis-IsAlive no_reset 60 1 60 110 worker_call empty_patch tables refl refl
      clean_patch refl beating_patch (omega arith)
