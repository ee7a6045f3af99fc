-- ===== src/Tests/Upload.antt =====
-- A chunked upload of two chunks: five bytes in all, with a limit of eight or of three.
use arcology.Base.{ℕ, ◌≡◌, refl, true, none, some, List, [], ◌∷◌, map, arith}
use arcology.Base.Result.{Result, ok}
use arcology.Base.Text.{codes}
use arcology.Upload.{
  Meta, pending, assembling, done, is_done, is_failed, storage, claim_finalize, set_finalize_result,
  finalize_status, raised, internal,
}
use arcology.Upload.Claim.{Call, claim, beat, result, call, calls, calls-claim}
use arcology.Upload.Chunks.{Bytes, Files, range, missing_chunks, write_chunk}
use arcology.Upload.Assemble.{Backend, storage_unavailable}
use arcology.Upload.Assemble.Bounds.{concat}
use arcology.Upload.Finalize.{Finalizer, run_finalize, run_finalize_done}

abbrev fresh : Meta
fresh = record {
  total_chunks = 2;
  filename = codes "disc.img";
  finalize_state = pending;
  heartbeat_at = 0;
  attempts = 0;
  finalized_at = 0;
  artefact_uuid = none;
  error = none;
  error_code = none;
}

-- Two requests race, the runner shows signs of life, a poll comes, and the runner ends.
abbrev race : List Call
race = claim 101 ∷ beat 115 ∷ claim 230 ∷ result 231 (raised internal (codes "x")) ∷ claim 235 ∷ []

wins : (claim_finalize 120 100 (some fresh)).1 ≡ true
unfolding claim_finalize
wins = refl

calls-claim_example : (calls 120 (claim 100 ∷ race) (some fresh)).1 ≡ 1
calls-claim_example =
    calls-claim 120 100 race (some fresh) wins (omega arith, (omega arith, (omega arith, tt)))

-- A runner that has not been heard of for longer is replaced.
redriven : (calls 120 (claim 100 ∷ claim 221 ∷ []) (some fresh)).1 ≡ 2
unfolding calls call claim_finalize
redriven = refl

abbrev finished : Meta
finished = record fresh { finalize_state = done; artefact_uuid = some (codes "u") }

abbrev chunks : List Bytes
chunks = (1 ∷ 2 ∷ 3 ∷ []) ∷ (4 ∷ 5 ∷ []) ∷ []

files : Files
unfolding write_chunk
files = write_chunk 0 (1 ∷ 2 ∷ 3 ∷ []) (write_chunk 1 (4 ∷ 5 ∷ []) (λ i. none))

all_there : missing_chunks files 2 ≡ []
unfolding missing_chunks files
all_there = refl

files_are : map files (range 0 2) ≡ map some chunks
unfolding files range
files_are = refl

abbrev backend : Backend
backend = record {
  put = λ key bytes. none;
  storage_key = λ name. name;
  md5 = λ bytes. bytes;
  sha256 = λ bytes. bytes;
}

abbrev limited_to : ℕ → Finalizer
limited_to limit = record {
  backend = backend;
  storage_name = λ name. name;
  max_upload_size = limit;
  limit_message = codes "too large";
  finalize_fn = λ u. ok u.md5;
}

abbrev running : Meta
running = record fresh { finalize_state = assembling; heartbeat_at = 100 }

run_finalize_done_example :
    finalize_status (run_finalize (limited_to 8) 130 (some running) (some running) files).0
    ≡ some (is_done (some (concat chunks)))
run_finalize_done_example =
    run_finalize_done (limited_to 8) 130 running running files chunks (concat chunks) files_are
      (omega arith) refl refl

-- An ingest that finds no storage backend.
abbrev without_storage : Finalizer
without_storage = record (limited_to 8) {
  finalize_fn = λ u. Result.raised (storage_unavailable (codes "down"));
}

storage_error :
    finalize_status (run_finalize without_storage 130 (some running) (some running) files).0
    ≡ some (is_failed (some (codes "Storage backend unavailable: down")) (some storage))
unfolding finalize_status run_finalize set_finalize_result files
storage_error = refl
