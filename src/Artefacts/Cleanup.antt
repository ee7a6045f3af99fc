-- ===== src/Artefacts/Cleanup.antt =====
-- _collect_item_cleanup_keys: the storage keys and the blobs that go with the artefacts that are deleted.
pub mod References
pub mod Laws
pub mod Shared
use arcology.Base.{
  ℕ, zero, suc, ◌-◌, Bool, true, false, not, ◌&&◌, ◌||◌, Option, none, some, List, [], ◌∷◌, ◌++◌,
  map, select, any, drop, length, leb, ◌==◌, if◌then◌else◌,
}
use arcology.Base.Text.{Text, codes, is_empty, same_text, starts_with, rstrip}
use arcology.Queue.{Analysis}
use arcology.Artefacts.{
  in_ids, refers, is_ref, StorageDirectory, uploads, outputs, ArtefactRow, Blob, Movie,
  ArtefactTables,
}

pub record CleanupKeys : Type 0 where
  pub artefact_keys : List Text
  pub output_file_keys : List Text
  pub output_dir_prefixes : List Text
  pub cache_prefixes : List Text
  pub upload_blob_ids : List ℕ
  pub output_blob_ids : List ℕ

abbrev pub no_keys : CleanupKeys
no_keys = record {
  artefact_keys = [];
  output_file_keys = [];
  output_dir_prefixes = [];
  cache_prefixes = [];
  upload_blob_ids = [];
  output_blob_ids = [];
}

-- A column's values that are not NULL.
unfoldable pub not_null : List (Option ℕ) → List ℕ
not_null [] = []
not_null (none ∷ os) = not_null os
not_null (some x ∷ os) = x ∷ not_null os

-- The rows whose id is in the list, `Artefact.id.in_(ids)`.
abbrev pub rows_in : List ℕ → List ArtefactRow → List ArtefactRow
rows_in ids = select (λ a. in_ids a.id ids)

-- The loop's `elif output_blob_id is not None`: an upload comes first.
unfoldable pub output_only : ArtefactRow → Option ℕ
output_only a = elim a.upload_blob_id [ none ↦ a.output_blob_id | some x ↦ none ]

unfoldable pub directory_key : StorageDirectory → Text → Text
directory_key uploads path = codes "uploads/" ++ path
directory_key outputs path = codes "outputs/" ++ path

-- An artefact with no blob record: its own file.
unfoldable pub legacy_key : ArtefactRow → List Text
unfolding directory_key
legacy_key a = elim a.upload_blob_id [
  | some x ↦ []
  | none ↦ elim a.output_blob_id [
    | some x ↦ []
    | none ↦
        if is_empty a.storage_path
        then []
        else directory_key a.storage_directory a.storage_path ∷ []
  ]
]

abbrev pub concat_map : (ArtefactRow → List Text) → List ArtefactRow → List Text
concat_map f [] = []
concat_map f (a ∷ artefacts) = f a ++ concat_map f artefacts

-- `external_ref`: a row outside the deletion refers to the blob.
unfoldable pub held : (ArtefactRow → Option ℕ) → List ArtefactRow → List ℕ → ℕ → Bool
unfolding in_ids
held column artefacts deleting b =
    any (λ a. is_ref (column a) b && not (in_ids a.id deleting)) artefacts

-- The blobs of the list that nothing outside the deletion refers to.
unfoldable pub orphans :
    (ArtefactRow → Option ℕ) → List ArtefactRow → List ℕ → List ℕ → List Blob → List Blob
unfolding held in_ids
orphans column artefacts deleting ids =
    select (λ b. in_ids b.id ids && not (held column artefacts deleting b.id))

abbrev pub movies_in : List ℕ → List Movie → List Movie
movies_in ids = select (λ m. in_ids m.artefact_id ids)

-- The blobs that a row of ReplayMovie or MediaFile refers to.
unfoldable pub transcodes : List Movie → List ℕ
unfolding not_null
transcodes [] = []
transcodes (m ∷ movies) =
    not_null (m.mp4_output_blob_id ∷ m.poster_blob_id ∷ []) ++ transcodes movies

-- `ReplayMovie` and `MediaFile`, one after the other.
abbrev pub all_movies : ArtefactTables → List Movie
all_movies t = t.replay_movies ++ t.media_files

-- _transcode_blobs_externally_referenced: whether a blob is among those it gives.
unfoldable pub transcode_referenced : ArtefactTables → List ℕ → ℕ → Bool
unfolding held in_ids
transcode_referenced t deleting b =
    held (λ a. a.output_blob_id) t.artefacts deleting b
    || any
        (λ m.
          (is_ref m.mp4_output_blob_id b || is_ref m.poster_blob_id b)
          && not (in_ids m.artefact_id deleting))
        (all_movies t)

unfoldable pub orphaned_uploads : ArtefactTables → List ℕ → List Blob
unfolding not_null orphans
orphaned_uploads t ids =
    orphans (λ a. a.upload_blob_id) t.artefacts ids
      (not_null (map (λ a. a.upload_blob_id) (rows_in ids t.artefacts))) t.upload_blobs

unfoldable pub orphaned_outputs : ArtefactTables → List ℕ → List Blob
unfolding not_null orphans output_only
orphaned_outputs t ids =
    orphans (λ a. a.output_blob_id) t.artefacts ids
      (not_null (map output_only (rows_in ids t.artefacts))) t.output_blobs

-- The blobs that only the movies refer to: those of `transcode_blob_ids` less the orphans so far and the survivors.
unfoldable pub orphaned_transcodes : ArtefactTables → List ℕ → List Blob
unfolding transcodes orphaned_outputs transcode_referenced in_ids
orphaned_transcodes t ids =
    select
      (λ b.
        in_ids b.id (transcodes (movies_in ids (all_movies t)))
        && not (in_ids b.id (map (λ o. o.id) (orphaned_outputs t ids)))
        && not (transcode_referenced t ids b.id))
      t.output_blobs

-- `path.split('/')`: the parts before and after each slash.
unfoldable pub split_slash : Text → List Text
split_slash [] = [] ∷ []
split_slash (c ∷ cs) =
    let rest = split_slash cs in
    if c == 0x2f
    then [] ∷ rest
    else elim rest [ [] ↦ (c ∷ []) ∷ [] | part ∷ parts ↦ (c ∷ part) ∷ parts ]

unfoldable pub join_slash : List Text → Text
join_slash [] = []
join_slash (part ∷ []) = part
join_slash (part ∷ next ∷ parts) = part ++ 0x2f ∷ join_slash (next ∷ parts)

-- The parts after the first that is 'outputs', or `none` for the ValueError of `index`.
unfoldable pub after_outputs : List Text → Option (List Text)
unfolding same_text
after_outputs [] = none
after_outputs (part ∷ parts) =
    if same_text part (codes "outputs") then some parts else after_outputs parts

-- `parts[-3:]` where there are three, else `parts[-1]`.
unfoldable pub last_parts : List Text → List Text
last_parts parts =
    if leb 3 (length parts) then drop (length parts - 3) parts else drop (length parts - 1) parts

-- The path of an analysis' output directory below 'outputs/'.
unfoldable pub output_rel : Text → Text
unfolding starts_with rstrip split_slash join_slash after_outputs last_parts
output_rel path =
    let parts = split_slash (rstrip (λ c. c == 0x2f) path) in
    if starts_with path (codes "/")
    then elim (after_outputs parts) [
      | some rel ↦ join_slash rel
      | none ↦ join_slash (last_parts parts)
    ]
    else path

unfoldable pub dir_prefixes : List Analysis → List Text
unfolding output_rel
dir_prefixes [] = []
dir_prefixes (a ∷ analyses) =
    let rest = dir_prefixes analyses in
    elim a.output_path [
      | none ↦ rest
      | some path ↦ if is_empty path then rest else (codes "outputs/" ++ output_rel path) ∷ rest
    ]

module _ (filenames : Text → List Text) where
  -- `filenames` is what `json.loads` finds in the details: the 'filename' of each of the 'outputs'.
  unfoldable pub file_keys : List Analysis → List Text
  file_keys [] = []
  file_keys (a ∷ analyses) =
      let rest = file_keys analyses in
      elim a.details [
        | none ↦ rest
        | some details ↦ map (λ name. codes "outputs/" ++ name) (filenames details) ++ rest
      ]

  unfoldable pub collect_item_cleanup_keys : ArtefactTables → List ℕ → CleanupKeys
  unfolding refers legacy_key directory_key orphaned_uploads orphaned_outputs orphaned_transcodes
      dir_prefixes file_keys
  collect_item_cleanup_keys t [] = no_keys
  collect_item_cleanup_keys t (x ∷ xs) =
      let ids = x ∷ xs in
      let rows = rows_in ids t.artefacts in
      let orphan_uploads = orphaned_uploads t ids in
      let orphan_outputs = orphaned_outputs t ids in
      let orphan_transcodes = orphaned_transcodes t ids in
      let analyses = select (λ a. refers a.artefact_id ids) t.analyses in
      record {
        artefact_keys =
            concat_map legacy_key rows
            ++ map (λ b. directory_key uploads b.storage_path) orphan_uploads
            ++ map (λ b. directory_key outputs b.storage_path) orphan_outputs
            ++ map (λ b. directory_key outputs b.storage_path) orphan_transcodes;
        output_file_keys = file_keys analyses;
        output_dir_prefixes = dir_prefixes analyses;
        cache_prefixes = map (λ a. codes "outputs/.cache/" ++ a.uuid) rows;
        upload_blob_ids = map (λ b. b.id) orphan_uploads;
        output_blob_ids = map (λ b. b.id) orphan_outputs ++ map (λ b. b.id) orphan_transcodes;
      }
