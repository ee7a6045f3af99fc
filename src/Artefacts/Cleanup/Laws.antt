-- ===== src/Artefacts/Cleanup/Laws.antt =====
-- Which blobs go with a deletion: those whose last reference goes.
use arcology.Base.{
  ℕ, ◌≡◌, refl, ap, ◌∙◌, Bool, true, false, not, ◌&&◌, ◌||◌, Option, List, [], ◌∷◌, map, any, all,
  ◌==◌,
}
use arcology.Base.Text.{Text}
use arcology.Artefacts.{in_ids, is_ref, ArtefactRow, Blob, Movie, ArtefactTables}
use arcology.Artefacts.Rows.{in_ids-append}
use arcology.Artefacts.Cleanup.{
  not_null, rows_in, output_only, held, orphans, movies_in, transcodes, all_movies,
  transcode_referenced, orphaned_uploads, orphaned_outputs, orphaned_transcodes,
  collect_item_cleanup_keys,
}
use arcology.Artefacts.Cleanup.References.{
  in_ids-select, any-not_null, in_ids-two, any-select_and, last_reference, is_single, single_refs,
  any-and_false, both, upload_ids, output_ids,
}

module _ (t : ArtefactTables) (ids : List ℕ) (b : ℕ) where
  abbrev stays_with : (ArtefactRow → Option ℕ) → Bool
  stays_with column = any (λ a. is_ref (column a) b && not (in_ids a.id ids)) t.artefacts

  orphans_of :
      (column chosen : ArtefactRow → Option ℕ) (rows : List Blob)
      → (any (λ a. in_ids a.id ids && is_ref (chosen a) b) t.artefacts
          ≡ any (λ a. in_ids a.id ids && is_ref (column a) b) t.artefacts)
      → in_ids b (
          map
            (λ r. r.id)
            (orphans column t.artefacts ids (not_null (map chosen (rows_in ids t.artefacts))) rows))
        ≡ (any (λ r. r.id == b) rows
            && (any (λ a. is_ref (column a) b) t.artefacts && not (stays_with column)))
  unfolding orphans held
  orphans_of column chosen rows same =
      in_ids-select
        (λ x.
          in_ids x (not_null (map chosen (rows_in ids t.artefacts)))
          && not (any (λ a. is_ref (column a) x && not (in_ids a.id ids)) t.artefacts))
        b rows
      ∙ ap (λ c. any (λ r. r.id == b) rows && (c && not (stays_with column)))
          (any-not_null chosen b (rows_in ids t.artefacts)
            ∙ any-select_and (λ a. is_ref (chosen a) b) (λ a. in_ids a.id ids) t.artefacts
            ∙ same)
      ∙ ap (λ c. any (λ r. r.id == b) rows && c)
          (last_reference (λ a. is_ref (column a) b) (λ a. in_ids a.id ids) t.artefacts)

  abbrev uses : Movie → Bool
  uses m = is_ref m.mp4_output_blob_id b || is_ref m.poster_blob_id b

  in_ids-transcodes : (movies : List Movie) → in_ids b (transcodes movies) ≡ any uses movies
  unfolding transcodes in_ids
  in_ids-transcodes [] = refl
  in_ids-transcodes (m ∷ movies) =
      in_ids-append b (not_null (m.mp4_output_blob_id ∷ m.poster_blob_id ∷ [])) (transcodes movies)
      ∙ ap (λ c. c || in_ids b (transcodes movies))
          (in_ids-two b m.mp4_output_blob_id m.poster_blob_id)
      ∙ ap (λ c. uses m || c) (in_ids-transcodes movies)

  abbrev movie_stays : Bool
  movie_stays = any (λ m. uses m && not (in_ids m.artefact_id ids)) (all_movies t)

  abbrev orphan_ids : List ℕ
  orphan_ids = map (λ o. o.id) (orphaned_outputs t ids)

  transcodes_of : in_ids b (map (λ r. r.id) (orphaned_transcodes t ids)) ≡ (
      any (λ r. r.id == b) t.output_blobs
      && (any (λ m. in_ids m.artefact_id ids && uses m) (all_movies t)
          && not (in_ids b orphan_ids)
          && not (stays_with (λ a. a.output_blob_id) || movie_stays)))
  unfolding orphaned_transcodes transcode_referenced held
  transcodes_of =
      in_ids-select
        (λ x.
          in_ids x (transcodes (movies_in ids (all_movies t)))
          && not (in_ids x orphan_ids)
          && not (transcode_referenced t ids x))
        b t.output_blobs
      ∙ ap
          (λ c.
            any (λ r. r.id == b) t.output_blobs
            && (c
                && not (in_ids b orphan_ids)
                && not (stays_with (λ a. a.output_blob_id) || movie_stays)))
          (in_ids-transcodes (movies_in ids (all_movies t))
            ∙ any-select_and uses (λ m. in_ids m.artefact_id ids) (all_movies t))

  -- A blob is among the uploads that a deletion deletes exactly if its row is there, some artefact has it as its file, and
  -- none that stays has.
  pub upload_blob_ids-last :
      (filenames : Text → List Text)
      → in_ids b (collect_item_cleanup_keys filenames t ids).upload_blob_ids ≡ (
          any (λ r. r.id == b) t.upload_blobs
          && (any (λ a. is_ref a.upload_blob_id b) t.artefacts
              && not (stays_with (λ a. a.upload_blob_id))))
  unfolding orphaned_uploads
  upload_blob_ids-last filenames =
      ap (in_ids b) (upload_ids filenames t ids)
      ∙ orphans_of (λ a. a.upload_blob_id) (λ a. a.upload_blob_id) t.upload_blobs refl

  outputs_of :
      all is_single t.artefacts ≡ true
      → in_ids b orphan_ids ≡ (
          any (λ r. r.id == b) t.output_blobs
          && (any (λ a. is_ref a.output_blob_id b) t.artefacts
              && not (stays_with (λ a. a.output_blob_id))))
  unfolding orphaned_outputs
  outputs_of single =
      orphans_of (λ a. a.output_blob_id) output_only t.output_blobs
        (single_refs b (λ a. in_ids a.id ids) t.artefacts single)

  -- A blob is among the outputs that a deletion deletes exactly if its row is there, some artefact or movie refers to it,
  -- and none that stays does; where no artefact has both an upload and an output, and the blob is not both the file of an
  -- artefact and the transcode or poster of a movie.
  pub output_blob_ids-last :
      (filenames : Text → List Text)
      → all is_single t.artefacts ≡ true
      → (any (λ a. is_ref a.output_blob_id b) t.artefacts && any uses (all_movies t)) ≡ false
      → in_ids b (collect_item_cleanup_keys filenames t ids).output_blob_ids ≡ (
          any (λ r. r.id == b) t.output_blobs
          && ((any (λ a. is_ref a.output_blob_id b) t.artefacts || any uses (all_movies t))
              && not (stays_with (λ a. a.output_blob_id) || movie_stays)))
  output_blob_ids-last filenames single apart =
      ap (in_ids b) (output_ids filenames t ids)
      ∙ in_ids-append b orphan_ids (map (λ r. r.id) (orphaned_transcodes t ids))
      ∙ ap (λ c. in_ids b orphan_ids || c) transcodes_of
      ∙ both (any (λ r. r.id == b) t.output_blobs)
          (any (λ a. is_ref a.output_blob_id b) t.artefacts) (stays_with (λ a. a.output_blob_id))
          (any uses (all_movies t)) (any (λ m. in_ids m.artefact_id ids && uses m) (all_movies t))
          movie_stays (in_ids b orphan_ids)
          (any-and_false (λ a. is_ref a.output_blob_id b) (λ a. not (in_ids a.id ids)) t.artefacts)
          (any-and_false uses (λ m. not (in_ids m.artefact_id ids)) (all_movies t))
          (last_reference uses (λ m. in_ids m.artefact_id ids) (all_movies t)) apart
          (outputs_of single)

  pub output_blob_ids-shared :
      (filenames : Text → List Text)
      → all is_single t.artefacts ≡ true
      → any (λ r. r.id == b) t.output_blobs ≡ true
      → any (λ a. is_ref a.output_blob_id b) t.artefacts ≡ true
      → stays_with (λ a. a.output_blob_id) ≡ false
      → in_ids b (collect_item_cleanup_keys filenames t ids).output_blob_ids ≡ true
  output_blob_ids-shared filenames single row refd none_stays =
      let taken : in_ids b orphan_ids ≡ true =
        outputs_of single ∙ rw (row, refd, none_stays) refl in
      ap (in_ids b) (output_ids filenames t ids)
      ∙ in_ids-append b orphan_ids (map (λ r. r.id) (orphaned_transcodes t ids))
      ∙ ap (λ c. c || in_ids b (map (λ r. r.id) (orphaned_transcodes t ids))) taken
