-- ===== src/Artefacts/Jobs.antt =====
-- run_artefact_delete_job, the job of the task runner, and queue_storage_cleanup. The heartbeat is not modelled.
pub mod Laws
use arcology.Base.{ℕ, Bool, true, false, ◌||◌, Option, none, some, List, [], ◌∷◌, if◌then◌else◌}
use arcology.Base.Text.{Text}
use arcology.Artefacts.{ArtefactTables}
use arcology.Artefacts.Tree.{get_all_derived_artefact_ids}
use arcology.Artefacts.Cleanup.{CleanupKeys, collect_item_cleanup_keys}
use arcology.Artefacts.Delete.{delete_artefact_subtree}
use arcology.Artefacts.Batches.{delete_extracted_files_batched}

-- EXTRACTED_FILE_DELETE_BATCH
abbrev pub extracted_file_delete_batch : ℕ
extracted_file_delete_batch = 5000

abbrev has_keys : List Text → Bool
has_keys [] = false
has_keys (key ∷ keys) = true

-- The keys of the CLEANUP job, where there is something to delete.
unfoldable pub queue_storage_cleanup : CleanupKeys → Option CleanupKeys
queue_storage_cleanup keys =
    if has_keys keys.artefact_keys
      || has_keys keys.output_file_keys
      || has_keys keys.output_dir_prefixes
      || has_keys keys.cache_prefixes
    then some keys
    else none

unfoldable pub delete_in_batches : List ℕ → ArtefactTables → ArtefactTables
unfolding delete_extracted_files_batched
delete_in_batches partition_ids t =
    (delete_extracted_files_batched extracted_file_delete_batch partition_ids t).0

-- The tables and the CLEANUP job that are left; `filenames` is what `json.loads` finds in the details of an analysis.
unfoldable pub run_artefact_delete_job :
    (Text → List Text) → ℕ → ArtefactTables → ArtefactTables × Option CleanupKeys
unfolding get_all_derived_artefact_ids collect_item_cleanup_keys delete_artefact_subtree
    delete_in_batches queue_storage_cleanup
run_artefact_delete_job filenames artefact_id t =
    let all_ids = artefact_id ∷ get_all_derived_artefact_ids t.artefacts artefact_id in
    let cleanup = collect_item_cleanup_keys filenames t all_ids in
    (delete_artefact_subtree delete_in_batches all_ids cleanup t, queue_storage_cleanup cleanup)
