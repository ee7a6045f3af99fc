-- ===== src/Tests/Artefacts.antt =====
-- Artefacts and its modules on two artefacts, one derived from the other, and a third that stays.
use arcology.Base.{
  Mem, mem-cons, ℕ, any, select, map, not, ◌≡◌, ◌↔◌, refl, true, false, Option, none, some, List,
  [], ◌∷◌, arith, ◌==◌, ◌&&◌, ◌||◌,
}
use arcology.Base.Int.{pos}
use arcology.Base.Text.{Text, codes}
use arcology.Enums.{completed, partition_detect}
use arcology.Queue.{Analysis}
use arcology.Artefacts.{
  in_ids, is_ref, ArtefactRow, uploads, outputs, Blob, Movie, ExtractedFileRow, ArtefactTables,
}
use arcology.Artefacts.Tree.{get_all_derived_artefact_ids}
use arcology.Artefacts.Tree.Edges.{Descends}
use arcology.Artefacts.Tree.Laws.{get_all_derived_artefact_ids_iff}
use arcology.Artefacts.Cleanup.{collect_item_cleanup_keys, output_rel, all_movies}
use arcology.Artefacts.Cleanup.Laws.{upload_blob_ids-last, output_blob_ids-last}
use arcology.Artefacts.Cleanup.Shared.{deleted, shared_transcode_lost}
use mathlib.Core.Logic.Or
use arcology.Artefacts.Delete.{delete_extracted_files}
use arcology.Artefacts.Delete.Left.{IsConsistent}
use arcology.Artefacts.Batches.{clear_parents, delete_batches, delete_extracted_files_batched}
use arcology.Artefacts.Batches.Keys.{is_distinct}
use arcology.Artefacts.Batches.Laws.{delete_extracted_files_batched_lem}
use arcology.Artefacts.Jobs.{run_artefact_delete_job}
use arcology.Artefacts.Jobs.Laws.{run_artefact_delete_job-IsConsistent}

abbrev upload : ℕ → ℕ → ArtefactRow
upload id blob = record {
  id = id;
  item_id = 1;
  uuid = codes "u";
  parent_artefact_id = none;
  derived_from_analysis_id = none;
  storage_directory = uploads;
  storage_path = codes "a";
  upload_blob_id = some blob;
  output_blob_id = none;
  media_metadata = none;
  pending_deletion = false;
}

-- The result of analysis 5 of artefact 1, in output blob 4.
abbrev carved : ArtefactRow
carved = record (upload 2 0) {
  parent_artefact_id = some 1;
  derived_from_analysis_id = some 5;
  storage_directory = outputs;
  upload_blob_id = none;
  output_blob_id = some 4;
}

abbrev detection : Analysis
detection = record {
  id = 5;
  artefact_id = some 1;
  analysis_type = partition_detect;
  status = completed;
  tool_name = none;
  tool_version = none;
  hints = none;
  output_url = none;
  output_path = some (codes "/data/outputs/x/y/");
  success = some true;
  summary = none;
  details = none;
  error_message = none;
  progress_message = none;
  progress_current = none;
  progress_total = none;
  progress_updated_at = none;
  stale_reset_count = 0;
  priority = pos 0;
  created_at = 0;
  started_at = none;
  completed_at = none;
}

abbrev a_file : ℕ → ℕ → Option ℕ → ExtractedFileRow
a_file id partition parent = record { id = id; partition_id = partition; parent_file_id = parent }

abbrev a_blob : ℕ → Blob
a_blob id = record { id = id; storage_path = codes "b" }

-- Artefacts 1 and 3 share upload blob 7; the movie of artefact 3 has output blob 4, which is artefact 2's file, and 6.
abbrev film : Movie
film = record { artefact_id = 3; mp4_output_blob_id = some 4; poster_blob_id = some 6 }

abbrev sample : ArtefactTables
sample = record {
  artefacts = upload 1 7 ∷ carved ∷ upload 3 7 ∷ [];
  analyses = detection ∷ [];
  replay_movies = film ∷ [];
  media_files = [];
  partitions = record { id = 10; artefact_id = 1 } ∷ record { id = 11; artefact_id = 3 } ∷ [];
  products = 10 ∷ [];
  files = a_file 23 10 (some 21) ∷ a_file 21 10 none ∷ a_file 22 11 none ∷ a_file 24 10 none ∷ [];
  restrictions = 21 ∷ 22 ∷ [];
  attachments = λ k. 1 ∷ 3 ∷ [];
  upload_blobs = a_blob 7 ∷ [];
  output_blobs = a_blob 4 ∷ a_blob 6 ∷ [];
}

sample-IsConsistent : IsConsistent sample
sample-IsConsistent = record {
  parents = refl;
  sources = refl;
  owners = refl;
  movies = refl;
  media = refl;
  partitions = refl;
  products = refl;
  files = refl;
  restrictions = refl;
  attachments = λ k. refl;
}

sample_distinct : is_distinct (map (λ f. f.id) sample.files) ≡ true
unfolding in_ids
sample_distinct = refl

none_stays :
    any (λ a. is_ref a.output_blob_id 4 && not (in_ids a.id (1 ∷ 2 ∷ []))) sample.artefacts ≡ false
unfolding in_ids
none_stays = refl

abbrev no_names : Text → List Text
no_names details = []

derived_of_one : get_all_derived_artefact_ids sample.artefacts 1 ≡ 2 ∷ []
unfolding get_all_derived_artefact_ids
derived_of_one = refl

output_dir : output_rel (codes "/data/outputs/x/y/") ≡ codes "x/y"
unfolding output_rel
output_dir = refl

get_all_derived_artefact_ids_iff_example :
    (in_ids 2 (get_all_derived_artefact_ids sample.artefacts 1) ≡ true)
    ↔ Descends sample.artefacts (1 ∷ []) 2
get_all_derived_artefact_ids_iff_example =
    get_all_derived_artefact_ids_iff sample.artefacts 1 2 refl

run_artefact_delete_job-IsConsistent_example :
    ((run_artefact_delete_job no_names 1 sample).0.artefacts
      ≡ select
          (λ a. not (in_ids a.id (1 ∷ get_all_derived_artefact_ids sample.artefacts 1)))
          sample.artefacts)
    × IsConsistent (run_artefact_delete_job no_names 1 sample).0
run_artefact_delete_job-IsConsistent_example =
    run_artefact_delete_job-IsConsistent no_names 1 sample refl sample_distinct refl
      sample-IsConsistent

delete_extracted_files_batched_lem_example :
    ((delete_extracted_files_batched 2 (10 ∷ []) sample).0
      ≡ delete_extracted_files (10 ∷ []) sample)
    × ((delete_extracted_files_batched 2
          (10 ∷ [])
          (delete_batches (10 ∷ []) 2 1 0 (clear_parents (10 ∷ []) sample) 0).0).0
        ≡ delete_extracted_files (10 ∷ []) sample)
delete_extracted_files_batched_lem_example =
    delete_extracted_files_batched_lem (10 ∷ []) 2 1 sample (omega arith) sample_distinct refl

upload_blob_ids-last_example :
    in_ids 7 (collect_item_cleanup_keys no_names sample (1 ∷ 2 ∷ [])).upload_blob_ids ≡ (
      any (λ r. r.id == 7) sample.upload_blobs
      && (any (λ a. is_ref a.upload_blob_id 7) sample.artefacts
          && not (
              any
                (λ a. is_ref a.upload_blob_id 7 && not (in_ids a.id (1 ∷ 2 ∷ [])))
                sample.artefacts)))
upload_blob_ids-last_example = upload_blob_ids-last sample (1 ∷ 2 ∷ []) 7 no_names

output_blob_ids-last_example :
    in_ids 6 (collect_item_cleanup_keys no_names sample (3 ∷ [])).output_blob_ids ≡ (
      any (λ r. r.id == 6) sample.output_blobs
      && ((any (λ a. is_ref a.output_blob_id 6) sample.artefacts
            || any
                (λ m. is_ref m.mp4_output_blob_id 6 || is_ref m.poster_blob_id 6)
                (all_movies sample))
          && not (
              any (λ a. is_ref a.output_blob_id 6 && not (in_ids a.id (3 ∷ []))) sample.artefacts
              || any
                  (λ m.
                    (is_ref m.mp4_output_blob_id 6 || is_ref m.poster_blob_id 6)
                    && not (in_ids m.artefact_id (3 ∷ [])))
                  (all_movies sample))))
output_blob_ids-last_example = output_blob_ids-last sample (3 ∷ []) 6 no_names refl refl

film_there : Mem film sample.replay_movies
film_there = mem-cons.1 (Or.inl refl)

film_stays : in_ids film.artefact_id (1 ∷ 2 ∷ []) ≡ false
unfolding in_ids
film_stays = refl

shared_transcode_lost_example :
    (any (λ r. r.id == 4) (deleted no_names (1 ∷ 2 ∷ []) sample).output_blobs ≡ false)
    × ((m' : Movie) × Mem m' (deleted no_names (1 ∷ 2 ∷ []) sample).replay_movies
        × (m'.artefact_id ≡ 3)
        × (m'.mp4_output_blob_id ≡ none))
shared_transcode_lost_example =
    shared_transcode_lost sample 1 (2 ∷ []) 4 no_names film refl refl refl none_stays film_there
      film_stays refl
