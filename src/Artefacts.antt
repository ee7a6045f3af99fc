-- ===== src/Artefacts.antt =====
-- myapp/services/artefact_lifecycle.py: the tables that it reads and writes, as lists of rows in the order of their
-- keys' creation, with the columns of myapp/database.py that it uses. A text is its list of code points.
pub mod Rows
pub mod Tree
pub mod Cleanup
pub mod Delete
pub mod Batches
pub mod Jobs
use arcology.Base.{ℕ, Bool, true, false, ◌||◌, Option, none, some, List, [], ◌∷◌, map, ◌==◌}
use arcology.Base.Text.{Text}
use arcology.Queue.{Analysis}

-- `x IN (...)`
unfoldable pub in_ids : ℕ → List ℕ → Bool
in_ids x [] = false
in_ids x (y ∷ ys) = y == x || in_ids x ys

-- `column.in_(ids)` for a column that may be NULL, which is in no list.
unfoldable pub refers : Option ℕ → List ℕ → Bool
unfolding in_ids
refers none ids = false
refers (some x) ids = in_ids x ids

-- `column == x`
abbrev pub is_ref : Option ℕ → ℕ → Bool
is_ref none x = false
is_ref (some y) x = y == x

pub data StorageDirectory : Type 0 where
  uploads outputs : StorageDirectory

pub record ArtefactRow : Type 0 where
  pub id : ℕ
  pub item_id : ℕ
  pub uuid : Text
  pub parent_artefact_id : Option ℕ
  pub derived_from_analysis_id : Option ℕ
  pub storage_directory : StorageDirectory
  pub storage_path : Text
  pub upload_blob_id : Option ℕ
  pub output_blob_id : Option ℕ
  pub media_metadata : Option Text
  pub pending_deletion : Bool

-- A row of `upload_blobs` or `output_blobs`.
pub record Blob : Type 0 where
  pub id : ℕ
  pub storage_path : Text

-- A row of `replay_movies` or `media_files`.
pub record Movie : Type 0 where
  pub artefact_id : ℕ
  pub mp4_output_blob_id : Option ℕ
  pub poster_blob_id : Option ℕ

pub record PartitionRow : Type 0 where
  pub id : ℕ
  pub artefact_id : ℕ

pub record ExtractedFileRow : Type 0 where
  pub id : ℕ
  pub partition_id : ℕ
  pub parent_file_id : Option ℕ

-- The tables that no other table refers to, whose rows go with an artefact.
pub data Attachment : Type 0 where
  protection mastering riscos_module artefact_restriction search_document tag : Attachment

pub record ArtefactTables : Type 0 where
  pub artefacts : List ArtefactRow
  pub analyses : List Analysis
  pub replay_movies : List Movie
  pub media_files : List Movie
  pub partitions : List PartitionRow
  -- the `partition_id` of a recognised product
  pub products : List ℕ
  pub files : List ExtractedFileRow
  -- the `extracted_file_id` of a restriction
  pub restrictions : List ℕ
  -- the `artefact_id` of a row of each of the other tables
  pub attachments : Attachment → List ℕ
  pub upload_blobs : List Blob
  pub output_blobs : List Blob

abbrev pub artefact_ids : List ArtefactRow → List ℕ
artefact_ids = map (λ a. a.id)
