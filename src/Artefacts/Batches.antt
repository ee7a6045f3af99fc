-- ===== src/Artefacts/Batches.antt =====
-- _delete_extracted_files in batches, as the task runner calls it: the loop over the keys of the files.
pub mod Sorted
pub mod Keys
pub mod Files
pub mod Turn
pub mod Laws
use arcology.Base.{
  ℕ, zero, suc, ◌+◌, Bool, ◌&&◌, not, Option, none, List, [], ◌∷◌, map, select, take, length, ltb,
  leb, if◌then◌else◌,
}
use arcology.Artefacts.{in_ids, ExtractedFileRow, ArtefactTables}
use arcology.Artefacts.Delete.{file_ids}

-- `order_by(ExtractedFile.id)`
unfoldable pub insert_id : ℕ → List ℕ → List ℕ
insert_id x [] = x ∷ []
insert_id x (y ∷ ys) = if leb x y then x ∷ y ∷ ys else y ∷ insert_id x ys

unfoldable pub sort_ids : List ℕ → List ℕ
unfolding insert_id
sort_ids [] = []
sort_ids (x ∷ xs) = insert_id x (sort_ids xs)

-- The break of the reference of a file to the archive that it is in.
unfoldable pub clear_parents : List ℕ → ArtefactTables → ArtefactTables
unfolding in_ids
clear_parents partition_ids t = record t {
  files =
      map
        (λ f. if in_ids f.partition_id partition_ids then record f { parent_file_id = none } else f)
        t.files;
}

-- The ids of the next batch: those above the cursor, in order, up to the size of a batch.
unfoldable pub next_batch : List ℕ → ℕ → ℕ → List ExtractedFileRow → List ℕ
unfolding sort_ids in_ids
next_batch partition_ids batch_size cursor files = take batch_size (
    sort_ids (
      map (λ f. f.id) (select (λ f. in_ids f.partition_id partition_ids && ltb cursor f.id) files)))

unfoldable pub delete_batch : List ℕ → ArtefactTables → ArtefactTables
unfolding in_ids
delete_batch ids t = record t {
  restrictions = select (λ r. not (in_ids r ids)) t.restrictions;
  files = select (λ f. not (in_ids f.id ids)) t.files;
}

-- `ids[-1]`
unfoldable pub last_id : ℕ → List ℕ → ℕ
last_id x [] = x
last_id x (y ∷ ys) = last_id y ys

-- The turns of the loop, as many as the fuel; a run that is cancelled or dies ends between two of them.
unfoldable pub delete_batches : List ℕ → ℕ → ℕ → ℕ → ArtefactTables → ℕ → ArtefactTables × ℕ
unfolding next_batch delete_batch last_id
delete_batches partition_ids batch_size zero cursor t deleted = (t, deleted)
delete_batches partition_ids batch_size (suc fuel) cursor t deleted =
    elim (next_batch partition_ids batch_size cursor t.files) [
      | [] ↦ (t, deleted)
      | x ∷ ids ↦
          delete_batches partition_ids batch_size fuel (last_id x ids) (delete_batch (x ∷ ids) t)
            (deleted + suc (length ids))
    ]

-- A turn for each file, and the one that finds none.
unfoldable pub delete_extracted_files_batched : ℕ → List ℕ → ArtefactTables → ArtefactTables × ℕ
unfolding file_ids clear_parents delete_batches
delete_extracted_files_batched batch_size partition_ids t =
    delete_batches partition_ids batch_size (suc (length (file_ids partition_ids t.files))) 0
      (clear_parents partition_ids t) 0
