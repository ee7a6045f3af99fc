-- ===== src/Artefacts/Cleanup/Shared.antt =====
-- A blob that an artefact and a movie share, through _collect_item_cleanup_keys and _delete_artefact_subtree.
use mathlib.Core.Logic.Or
use mathlib.Core.List.{Mem-prop}
use arcology.Base.{
  ℕ, ◌≡◌, refl, ap, ◌∙◌, true, false, not, ◌&&◌, none, some, List, [], ◌∷◌, select, any, all, ◌==◌,
  ==_iff, Mem, mem-cons, not-mem-nil, Bool-cases, inl, inr,
}
use arcology.Base.Select.{mem-select}
use arcology.Base.Text.{Text}
use arcology.Artefacts.{in_ids, refers, is_ref, Blob, Movie, ArtefactTables}
use arcology.Artefacts.Cleanup.{collect_item_cleanup_keys}
use arcology.Artefacts.Cleanup.References.{is_single}
use arcology.Artefacts.Cleanup.Laws.{output_blob_ids-shared}
use arcology.Artefacts.Delete.{
  delete_extracted_files, bulk_delete_artefact_dependents, bulk_delete_artefacts, clear_sources,
  unless_gone, forget_blobs, delete_blobs, delete_artefact_subtree,
}

-- A row whose id is in the list is not found after the deletion by the list.
any-deleted :
    (b : ℕ) (ids : List ℕ) (rows : List Blob)
    → in_ids b ids ≡ true
    → any (λ r. r.id == b) (select (λ r. not (in_ids r.id ids)) rows) ≡ false
any-deleted b ids [] h = refl
any-deleted b ids (r ∷ rows) h = elim (Bool-cases (r.id == b)) [
  | inl e ↦
      let same : in_ids r.id ids ≡ true = ap (λ k. in_ids k ids) ((==_iff r.id b).0 e) ∙ h in
      rw same (any-deleted b ids rows h)
  | inr e ↦ elim (Bool-cases (in_ids r.id ids)) [
    | inl f ↦ rw f (any-deleted b ids rows h)
    | inr f ↦ rw (f, e) (any-deleted b ids rows h)
  ]
]

mem-forget_blobs :
    (ids : List ℕ) (m : Movie) (movies : List Movie)
    → Mem m movies
    → Mem
        (record m {
          mp4_output_blob_id = unless_gone ids m.mp4_output_blob_id;
          poster_blob_id = unless_gone ids m.poster_blob_id;
        })
        (forget_blobs ids movies)
unfolding forget_blobs
mem-forget_blobs ids m [] h = absurd (not-mem-nil h)
mem-forget_blobs ids m (x ∷ movies) h =
    Or.elim Mem-prop (mem-cons.0 h)
      (λ q. mem-cons.1 (
        Or.inl (
          ap {A = Movie}
            (λ x. record x {
              mp4_output_blob_id = unless_gone ids x.mp4_output_blob_id;
              poster_blob_id = unless_gone ids x.poster_blob_id;
            })
            q)))
      (λ q. mem-cons.1 (Or.inr (mem-forget_blobs ids m movies q)))

-- The tables after the deletion of artefacts with the blobs that are collected for them.
abbrev pub deleted : (Text → List Text) → List ℕ → ArtefactTables → ArtefactTables
deleted filenames ids t =
    delete_artefact_subtree delete_extracted_files ids (collect_item_cleanup_keys filenames t ids) t

-- The deletion of artefacts deletes an output that artefacts have as their file, all of which go, whatever movie has
-- it as its transcode: the row of the output is gone, and a movie of an artefact that stays keeps its row, with NULL
-- for its transcode; where no artefact has both an upload and an output.
pub shared_transcode_lost :
    (t : ArtefactTables) (x : ℕ) (xs : List ℕ) (b : ℕ) (filenames : Text → List Text) (m : Movie)
    → all is_single t.artefacts ≡ true
    → any (λ r. r.id == b) t.output_blobs ≡ true
    → any (λ a. is_ref a.output_blob_id b) t.artefacts ≡ true
    → any (λ a. is_ref a.output_blob_id b && not (in_ids a.id (x ∷ xs))) t.artefacts ≡ false
    → Mem m t.replay_movies
    → in_ids m.artefact_id (x ∷ xs) ≡ false
    → m.mp4_output_blob_id ≡ some b
    → (any (λ r. r.id == b) (deleted filenames (x ∷ xs) t).output_blobs ≡ false)
      × ((m' : Movie) × Mem m' (deleted filenames (x ∷ xs) t).replay_movies
          × (m'.artefact_id ≡ m.artefact_id)
          × (m'.mp4_output_blob_id ≡ none))
unfolding delete_artefact_subtree delete_blobs bulk_delete_artefacts bulk_delete_artefact_dependents
    clear_sources delete_extracted_files unless_gone refers
shared_transcode_lost t x xs b filenames m single row refd none_stays there stays mp4 =
    let ids = (collect_item_cleanup_keys filenames t (x ∷ xs)).output_blob_ids in
    let gone : in_ids b ids ≡ true =
      output_blob_ids-shared t (x ∷ xs) b filenames single row refd none_stays in
    let kept =
      mem-select (λ m. not (in_ids m.artefact_id (x ∷ xs))) m t.replay_movies there
        (rw stays refl) in
    (
      any-deleted b ids t.output_blobs gone,
      (
        record m {
          mp4_output_blob_id = unless_gone ids m.mp4_output_blob_id;
          poster_blob_id = unless_gone ids m.poster_blob_id;
        },
        mem-forget_blobs ids m _ kept,
        refl,
        rw (mp4, gone) refl,
      ),
    )
