-- ===== src/Artefacts/Delete.antt =====
-- The deletion of artefacts with all that refers to them: _delete_extracted_files in one statement,
-- bulk_delete_artefact_dependents, bulk_delete_artefacts and _delete_artefact_subtree. An UPDATE or a DELETE for an
-- empty list of ids does nothing, as where the code leaves it out.
pub mod Left
pub mod Integrity
use arcology.Base.{ℕ, Bool, not, ◌||◌, Option, none, List, [], ◌∷◌, map, select, if◌then◌else◌}
use arcology.Queue.{Analysis}
use arcology.Artefacts.{
  in_ids, refers, ArtefactRow, Blob, Movie, PartitionRow, ExtractedFileRow, ArtefactTables,
}
use arcology.Artefacts.Cleanup.{CleanupKeys}

-- The ids of the files in the partitions.
unfoldable pub file_ids : List ℕ → List ExtractedFileRow → List ℕ
unfolding in_ids
file_ids partition_ids files =
    map (λ f. f.id) (select (λ f. in_ids f.partition_id partition_ids) files)

unfoldable pub delete_extracted_files : List ℕ → ArtefactTables → ArtefactTables
unfolding file_ids
delete_extracted_files partition_ids t = record t {
  restrictions = select (λ r. not (in_ids r (file_ids partition_ids t.files))) t.restrictions;
  files = select (λ f. not (in_ids f.partition_id partition_ids)) t.files;
}

unfoldable pub partition_ids_of : List ℕ → List PartitionRow → List ℕ
unfolding in_ids
partition_ids_of ids partitions =
    map (λ p. p.id) (select (λ p. in_ids p.artefact_id ids) partitions)

-- `delete_files` is one of the two ways of _delete_extracted_files.
unfoldable pub bulk_delete_artefact_dependents :
    (List ℕ → ArtefactTables → ArtefactTables) → List ℕ → List ℕ → ArtefactTables → ArtefactTables
unfolding in_ids refers partition_ids_of
bulk_delete_artefact_dependents delete_files artefact_ids exclude_analysis_ids t =
    let partition_ids = partition_ids_of artefact_ids t.partitions in
    let deleted = delete_files partition_ids (record t {
      analyses =
          select (λ a. not (refers a.artefact_id artefact_ids) || in_ids a.id exclude_analysis_ids)
            t.analyses;
      replay_movies = select (λ m. not (in_ids m.artefact_id artefact_ids)) t.replay_movies;
      media_files = select (λ m. not (in_ids m.artefact_id artefact_ids)) t.media_files;
      products = select (λ p. not (in_ids p partition_ids)) t.products;
    }) in
    record deleted {
      partitions = select (λ p. not (in_ids p.artefact_id artefact_ids)) deleted.partitions;
      attachments = λ k. select (λ x. not (in_ids x artefact_ids)) (deleted.attachments k);
    }

-- `update({column: None})` for the artefacts of the list.
abbrev pub on_artefacts : (ArtefactRow → ArtefactRow) → List ℕ → List ArtefactRow → List ArtefactRow
on_artefacts f ids = map (λ a. if in_ids a.id ids then f a else a)

unfoldable pub bulk_delete_artefacts : List ℕ → ArtefactTables → ArtefactTables
unfolding in_ids
bulk_delete_artefacts artefact_ids t = record t {
  artefacts =
      select (λ a. not (in_ids a.id artefact_ids))
        (on_artefacts (λ a. record a { parent_artefact_id = none }) artefact_ids t.artefacts);
}

-- A foreign key with ON DELETE SET NULL.
unfoldable pub unless_gone : List ℕ → Option ℕ → Option ℕ
unfolding refers
unless_gone ids o = if refers o ids then none else o

unfoldable pub forget_blobs : List ℕ → List Movie → List Movie
unfolding unless_gone
forget_blobs ids = map {A = Movie} (λ m. record m {
  mp4_output_blob_id = unless_gone ids m.mp4_output_blob_id;
  poster_blob_id = unless_gone ids m.poster_blob_id;
})

unfoldable pub delete_blobs : CleanupKeys → ArtefactTables → ArtefactTables
unfolding in_ids forget_blobs
delete_blobs cleanup t = record t {
  upload_blobs = select (λ b. not (in_ids b.id cleanup.upload_blob_ids)) t.upload_blobs;
  output_blobs = select (λ b. not (in_ids b.id cleanup.output_blob_ids)) t.output_blobs;
  replay_movies = forget_blobs cleanup.output_blob_ids t.replay_movies;
  media_files = forget_blobs cleanup.output_blob_ids t.media_files;
}

unfoldable pub clear_sources : List ℕ → ArtefactTables → ArtefactTables
unfolding in_ids
clear_sources ids t = record t {
  artefacts = on_artefacts (λ a. record a { derived_from_analysis_id = none }) ids t.artefacts;
}

unfoldable pub delete_artefact_subtree :
    (List ℕ → ArtefactTables → ArtefactTables)
    → List ℕ
    → CleanupKeys
    → ArtefactTables
    → ArtefactTables
unfolding clear_sources bulk_delete_artefact_dependents bulk_delete_artefacts delete_blobs
delete_artefact_subtree delete_files [] cleanup t = t
delete_artefact_subtree delete_files (x ∷ xs) cleanup t = delete_blobs cleanup (
    bulk_delete_artefacts (x ∷ xs)
      (bulk_delete_artefact_dependents delete_files (x ∷ xs) [] (clear_sources (x ∷ xs) t)))
