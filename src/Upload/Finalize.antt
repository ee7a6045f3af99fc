-- ===== src/Upload/Finalize.antt =====
-- run_finalize: a claimed session's chunks are assembled and ingested, the outcome goes into meta.json,
-- and the chunk files are deleted. `finalize_fn`, the ingest of the blueprint, is an argument.
use arcology.Base.{
  ℕ, ◌≤◌, ◌<◌, ◌≡◌, ◌∙◌, refl, inl, inr, true, Option, none, some, List, length, arith, map, ◌++◌,
}
use arcology.Base.Result.{Result, ok, ◌>>=◌}
use arcology.Base.Text.{Text, codes}
use arcology.Upload.{
  Meta, too_large, storage, internal, Ending, succeeded, is_done, is_failed, is_final,
  set_finalize_result, finalize_status, ended,
}
use arcology.Upload.Chunks.{Bytes, Files, range, delete_chunk_files}
use arcology.Upload.Assemble.{
  Failure, upload_too_large, storage_unavailable, other_exception, AssembledUpload, Backend, store,
  assemble_to_storage,
}
use arcology.Upload.Assemble.Bounds.{concat, spool_chunks_lem}

-- What one finalise depends on: the backend, the new storage name, the size limit, and the ingest.
pub record Finalizer : Type 0 where
  pub backend : Backend
  pub storage_name : Text → Text
  pub max_upload_size : ℕ
  pub limit_message : Text
  pub finalize_fn : AssembledUpload → Result Failure Text

-- The `except` clauses.
abbrev pub ending : Finalizer → Result Failure Text → Ending
ending f (ok uuid) = succeeded uuid
ending f (Result.raised upload_too_large) = Ending.raised too_large f.limit_message
ending f (Result.raised (storage_unavailable message)) =
    Ending.raised storage (codes "Storage backend unavailable: " ++ message)
ending f (Result.raised other_exception) =
    Ending.raised internal (codes "Internal error during finalise")

unfoldable pub finalize_outcome : Finalizer → Meta → Files → Result Failure Text
unfolding assemble_to_storage
finalize_outcome f m files =
    assemble_to_storage f.backend (f.storage_name m.filename) m.total_chunks f.max_upload_size files
    >>= f.finalize_fn

-- The first meta.json is the one read at the start, the second the one that the result is merged into.
unfoldable pub run_finalize :
    Finalizer → ℕ → Option Meta → Option Meta → Files → Option Meta × Files
unfolding finalize_outcome
run_finalize f now none later files = (later, files)
run_finalize f now (some m) later files = (
  set_finalize_result now (ending f (finalize_outcome f m files)) later,
  delete_chunk_files m.total_chunks files,
)

ended-IsFinal : (now : ℕ) (e : Ending) (m : Meta) → is_final (ended now e m).finalize_state ≡ true
ended-IsFinal now (succeeded uuid) m = refl
ended-IsFinal now (Ending.raised code message) m = refl

deleted :
    (total : ℕ) (files : Files) (index : ℕ)
    → index < total
    → delete_chunk_files total files index ≡ none
unfolding delete_chunk_files
deleted total files index h = ground arith

outcome_done :
    (f : Finalizer) (m : Meta) (files : Files) (chunks : List Bytes)
    → map files (range 0 m.total_chunks) ≡ map some chunks
    → length (concat chunks) ≤ f.max_upload_size
    → f.backend.put (f.backend.storage_key (f.storage_name m.filename)) (concat chunks) ≡ none
    → finalize_outcome f m files
      ≡ f.finalize_fn (record {
        storage_name = f.storage_name m.filename;
        file_size = length (concat chunks);
        md5 = f.backend.md5 (concat chunks);
        sha256 = f.backend.sha256 (concat chunks);
      })
unfolding finalize_outcome assemble_to_storage store
outcome_done f m files chunks present fits accepted =
    elim (spool_chunks_lem 65536 f.max_upload_size chunks (omega arith)) [
      | inl (q, l) ↦ rw (present, q, store, accepted) refl
      | inr (l, rest) ↦ absurd (omega arith)
    ]

outcome_too_large :
    (f : Finalizer) (m : Meta) (files : Files) (chunks : List Bytes)
    → map files (range 0 m.total_chunks) ≡ map some chunks
    → f.max_upload_size < length (concat chunks)
    → finalize_outcome f m files ≡ Result.raised upload_too_large
unfolding finalize_outcome assemble_to_storage store
outcome_too_large f m files chunks present over =
    elim (spool_chunks_lem 65536 f.max_upload_size chunks (omega arith)) [
      | inl (q, l) ↦ absurd (omega arith)
      | inr (l, (spooled, q, bound)) ↦ rw (present, q) refl
    ]

-- However the assembly and the ingest end, a session whose meta.json is there at the start and at the
-- end of the call is done or has failed after it, and no chunk file below the total stays.
run_finalize_ends :
    (f : Finalizer) (now : ℕ) (m later : Meta) (files : Files) (index : ℕ)
    → index < m.total_chunks
    → ((m' : Meta) × ((run_finalize f now (some m) (some later) files).0 ≡ some m')
        × (is_final m'.finalize_state ≡ true))
      × ((run_finalize f now (some m) (some later) files).1 index ≡ none)
unfolding run_finalize set_finalize_result delete_chunk_files
run_finalize_ends f now m later files index h = (
  (
    ended now (ending f (finalize_outcome f m files)) later,
    refl,
    ended-IsFinal now (ending f (finalize_outcome f m files)) later,
  ),
  deleted m.total_chunks files index h,
)

-- If no chunk is missing, the chunks are within the limit, the backend accepts the chunks joined in order
-- under the storage key, and the ingest gives `uuid` for their length and hashes, then the session
-- reports that it is done, with `uuid`.
pub run_finalize_done :
    (f : Finalizer) (now : ℕ) (m later : Meta) (files : Files) (chunks : List Bytes) (uuid : Text)
    → map files (range 0 m.total_chunks) ≡ map some chunks
    → length (concat chunks) ≤ f.max_upload_size
    → f.backend.put (f.backend.storage_key (f.storage_name m.filename)) (concat chunks) ≡ none
    → f.finalize_fn (record {
      storage_name = f.storage_name m.filename;
      file_size = length (concat chunks);
      md5 = f.backend.md5 (concat chunks);
      sha256 = f.backend.sha256 (concat chunks);
    })
      ≡ ok uuid
    → finalize_status (run_finalize f now (some m) (some later) files).0
      ≡ some (is_done (some uuid))
unfolding run_finalize set_finalize_result finalize_status
run_finalize_done f now m later files chunks uuid present fits accepted ingested =
    rw (outcome_done f m files chunks present fits accepted ∙ ingested) refl

-- If no chunk is missing and the chunks are over the limit, the session reports the failure, with its
-- message and code, whatever the backend and the ingest would do.
run_finalize_too_large :
    (f : Finalizer) (now : ℕ) (m later : Meta) (files : Files) (chunks : List Bytes)
    → map files (range 0 m.total_chunks) ≡ map some chunks
    → f.max_upload_size < length (concat chunks)
    → finalize_status (run_finalize f now (some m) (some later) files).0
      ≡ some (is_failed (some f.limit_message) (some too_large))
unfolding run_finalize set_finalize_result finalize_status
run_finalize_too_large f now m later files chunks present over =
    rw (outcome_too_large f m files chunks present over) refl
