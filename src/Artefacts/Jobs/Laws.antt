-- ===== src/Artefacts/Jobs/Laws.antt =====
-- What is left when the job that deletes an artefact is done.
use arcology.Base.{
  ℕ, ◌≡◌, refl, ap, ◌∙◌, sym, true, not, List, [], ◌∷◌, map, select, all, ltb, arith,
}
use mathlib.Core.Path.{subst}
use arcology.Base.Text.{Text}
use arcology.Artefacts.{in_ids, ArtefactTables}
use arcology.Artefacts.Tree.{get_all_derived_artefact_ids}
use arcology.Artefacts.Tree.Edges.{is_later}
use arcology.Artefacts.Tree.Laws.{artefact_subtree-IsClosed}
use arcology.Artefacts.Cleanup.{CleanupKeys, collect_item_cleanup_keys}
use arcology.Artefacts.Delete.{
  delete_extracted_files, bulk_delete_artefact_dependents, bulk_delete_artefacts, delete_blobs,
  clear_sources, delete_artefact_subtree,
}
use arcology.Artefacts.Delete.Left.{IsConsistent}
use arcology.Artefacts.Delete.Integrity.{artefacts_left, delete_artefact_subtree-IsConsistent}
use arcology.Artefacts.Batches.Keys.{is_distinct}
use arcology.Artefacts.Batches.Laws.{delete_extracted_files_batched_lem}
use arcology.Artefacts.Jobs.{delete_in_batches, run_artefact_delete_job}

module _ (t : ArtefactTables) (distinct : is_distinct (map (λ f. f.id) t.files) ≡ true)
    (positive : all (λ f. ltb 0 f.id) t.files ≡ true) where
  in_batches :
      (partition_ids : List ℕ) (u : ArtefactTables)
      → u.files ≡ t.files
      → delete_in_batches partition_ids u ≡ delete_extracted_files partition_ids u
  unfolding delete_in_batches
  in_batches partition_ids u e =
      (delete_extracted_files_batched_lem partition_ids 5000 0 u (omega arith) (rw e distinct)
        (rw e positive)).0

  dependents_in_batches :
      (ids : List ℕ)
      → bulk_delete_artefact_dependents delete_in_batches ids [] (clear_sources ids t)
        ≡ bulk_delete_artefact_dependents delete_extracted_files ids [] (clear_sources ids t)
  unfolding bulk_delete_artefact_dependents clear_sources
  dependents_in_batches ids =
      let rest : ArtefactTables → ArtefactTables = λ u. record u {
        partitions = select (λ p. not (in_ids p.artefact_id ids)) u.partitions;
        attachments = λ k. select (λ x. not (in_ids x ids)) (u.attachments k);
      } in
      ap rest (in_batches _ _ refl)

  subtree_in_batches :
      (x : ℕ) (xs : List ℕ) (cleanup : CleanupKeys)
      → delete_artefact_subtree delete_in_batches (x ∷ xs) cleanup t
        ≡ delete_artefact_subtree delete_extracted_files (x ∷ xs) cleanup t
  unfolding delete_artefact_subtree
  subtree_in_batches x xs cleanup =
      ap (λ u. delete_blobs cleanup (bulk_delete_artefacts (x ∷ xs) u))
        (dependents_in_batches (x ∷ xs))

subtree_artefacts :
    (t : ArtefactTables) (x : ℕ) (xs : List ℕ) (cleanup : CleanupKeys)
    → (delete_artefact_subtree delete_extracted_files (x ∷ xs) cleanup t).artefacts
      ≡ select (λ a. not (in_ids a.id (x ∷ xs))) t.artefacts
unfolding delete_artefact_subtree delete_extracted_files
subtree_artefacts t x xs cleanup = artefacts_left (x ∷ xs) t.artefacts

-- The job that deletes an artefact leaves of the artefacts just those that are neither it nor derived from it, as they
-- were. No artefact, analysis, movie, media file, partition, attachment, product or extracted file that is left refers to
-- an artefact, an analysis or a partition that is gone, and no restriction to a file that is, if it was so before; where
-- each artefact has been created after the one that it is derived from, what was derived was derived by an analysis of
-- its parent, and the keys of the files are distinct and above 0.
pub run_artefact_delete_job-IsConsistent :
    (filenames : Text → List Text) (artefact_id : ℕ) (t : ArtefactTables)
    → all is_later t.artefacts ≡ true
    → is_distinct (map (λ f. f.id) t.files) ≡ true
    → all (λ f. ltb 0 f.id) t.files ≡ true
    → IsConsistent t
    → ((run_artefact_delete_job filenames artefact_id t).0.artefacts
        ≡ select
            (λ a.
              not
                (in_ids a.id (artefact_id ∷ get_all_derived_artefact_ids t.artefacts artefact_id)))
            t.artefacts)
      × IsConsistent (run_artefact_delete_job filenames artefact_id t).0
unfolding run_artefact_delete_job
run_artefact_delete_job-IsConsistent filenames artefact_id t later distinct positive v =
    let derived = get_all_derived_artefact_ids t.artefacts artefact_id in
    let cleanup = collect_item_cleanup_keys filenames t (artefact_id ∷ derived) in
    let same = subtree_in_batches t distinct positive artefact_id derived cleanup in
    (
      ap (λ u. u.artefacts) same ∙ subtree_artefacts t artefact_id derived cleanup,
      subst IsConsistent (sym same) (
          delete_artefact_subtree-IsConsistent t (artefact_id ∷ derived) cleanup
            (artefact_subtree-IsClosed t.artefacts artefact_id later) v),
    )
