-- ===== src/Artefacts/Delete/Integrity.antt =====
-- That a deletion leaves no reference to a row that is gone.
use arcology.Base.{
  ℕ, ◌≡◌, refl, ◌∙◌, ap, Bool, true, not, ◌&&◌, ◌||◌, Option, none, some, List, [], ◌∷◌, ◌==◌,
  ==_iff, select, any, all, arith, Bool-cases, inl, inr, and-eq_true, Mem,
}
use arcology.Base.Select.{any-eq_true_of}
use arcology.Queue.{Analysis}
use arcology.Artefacts.{in_ids, refers, is_ref, ArtefactRow, Movie, ArtefactTables}
use arcology.Artefacts.Rows.{any-select, all-select}
use arcology.Artefacts.Tree.Edges.{is_edge}
use arcology.Artefacts.Tree.Laws.{IsClosed}
use arcology.Artefacts.Cleanup.{CleanupKeys}
use arcology.Artefacts.Delete.{
  file_ids, delete_extracted_files, partition_ids_of, on_artefacts, forget_blobs,
  delete_artefact_subtree,
}
use arcology.Artefacts.Delete.Left.{
  found, same_ref, source_found, IsConsistent, found-delete, all-found, all-left, survivors,
}

is_ref-some : (o : Option ℕ) (p : ℕ) → o ≡ some p → is_ref o p ≡ true
is_ref-some o p e = rw e ((==_iff p p).1 refl)

-- What is left of the artefacts refers to none that is deleted.
parent_kept :
    (artefacts : List ArtefactRow) (ids : List ℕ)
    → IsClosed artefacts ids
    → (a : ArtefactRow) → Mem a artefacts
    → not (in_ids a.id ids) ≡ true
    → (o : Option ℕ) → a.parent_artefact_id ≡ o
    → not (refers o ids) ≡ true
unfolding refers
parent_kept artefacts ids closed a m k none e = refl
parent_kept artefacts ids closed a m k (some p) e = elim (Bool-cases (in_ids p ids)) [
  | inl f ↦
      let edge : is_edge artefacts p a.id ≡ true =
        any-eq_true_of (λ r. is_ref r.parent_artefact_id p && r.id == a.id) a artefacts m
          (rw (is_ref-some a.parent_artefact_id p e) ((==_iff a.id a.id).1 refl)) in
      absurd (cc (k, closed p a.id f edge))
  | inr f ↦ rw f refl
]

parents_left :
    (artefacts : List ArtefactRow) (ids : List ℕ)
    → IsClosed artefacts ids
    → all (λ a. found (λ r. r.id) artefacts a.parent_artefact_id) artefacts ≡ true
    → all
        (λ a.
          found (λ r. r.id) (select (λ r. not (in_ids r.id ids)) artefacts) a.parent_artefact_id)
        (select (λ r. not (in_ids r.id ids)) artefacts)
      ≡ true
parents_left artefacts ids closed =
    all-select (λ a. found (λ r. r.id) artefacts a.parent_artefact_id)
      (λ a. found (λ r. r.id) (select (λ r. not (in_ids r.id ids)) artefacts) a.parent_artefact_id)
      (λ r. not (in_ids r.id ids)) artefacts
      (λ a m k h.
        found-delete (λ r. r.id) ids artefacts a.parent_artefact_id
          (parent_kept artefacts ids closed a m k a.parent_artefact_id refl) h)

same_ref-eq : (a b : Option ℕ) → same_ref a b ≡ true → a ≡ b
same_ref-eq none none h = refl
same_ref-eq (some x) (some y) h = ap some ((==_iff x y).0 h)
same_ref-eq none (some y) h = absurd (cc h)
same_ref-eq (some x) none h = absurd (cc h)

module _ (ids : List ℕ) where
  -- The condition of the DELETE of the analyses, negated, with none spared.
  abbrev analysis_left : Analysis → Bool
  analysis_left r = not (refers r.artefact_id ids) || in_ids r.id []

  left_refers : (r : Analysis) → analysis_left r ≡ true → not (refers r.artefact_id ids) ≡ true
  unfolding in_ids
  left_refers r h = ground arith

  source_kept :
      (analyses : List Analysis) (parent source : Option ℕ)
      → not (refers parent ids) ≡ true
      → source_found analyses parent source ≡ true
      → source_found (select analysis_left analyses) parent source ≡ true
  source_kept analyses parent none k h = refl
  source_kept analyses parent (some n) k h =
      any-select (λ r. r.id == n && same_ref r.artefact_id parent) analysis_left analyses
        (λ r e.
          let same = same_ref-eq r.artefact_id parent (and-eq_true (r.id == n) _ e).1 in
          rw (same, k) refl)
      ∙ h

  sources_left :
      (artefacts : List ArtefactRow) (analyses : List Analysis)
      → IsClosed artefacts ids
      → all (λ a. source_found analyses a.parent_artefact_id a.derived_from_analysis_id) artefacts
        ≡ true
      → all
          (λ a.
            source_found
              (select analysis_left analyses)
              a.parent_artefact_id
              a.derived_from_analysis_id)
          (select (λ r. not (in_ids r.id ids)) artefacts)
        ≡ true
  sources_left artefacts analyses closed =
      all-select (λ a. source_found analyses a.parent_artefact_id a.derived_from_analysis_id)
        (λ a.
          source_found (select analysis_left analyses) a.parent_artefact_id
            a.derived_from_analysis_id)
        (λ r. not (in_ids r.id ids)) artefacts
        (λ a m k h.
          source_kept analyses a.parent_artefact_id a.derived_from_analysis_id
            (parent_kept artefacts ids closed a m k a.parent_artefact_id refl) h)

  owners_left :
      (artefacts : List ArtefactRow) (analyses : List Analysis)
      → all (λ r. found (λ a. a.id) artefacts r.artefact_id) analyses ≡ true
      → all
          (λ r. found (λ a. a.id) (select (λ a. not (in_ids a.id ids)) artefacts) r.artefact_id)
          (select analysis_left analyses)
        ≡ true
  owners_left artefacts analyses =
      all-select (λ r. found (λ a. a.id) artefacts r.artefact_id)
        (λ r. found (λ a. a.id) (select (λ a. not (in_ids a.id ids)) artefacts) r.artefact_id)
        analysis_left analyses
        (λ r m k h. found-delete (λ a. a.id) ids artefacts r.artefact_id (left_refers r k) h)

all-forget :
    (p : ℕ → Bool) (ids : List ℕ) (movies : List Movie)
    → all (λ m. p m.artefact_id) (forget_blobs ids movies) ≡ all (λ m. p m.artefact_id) movies
unfolding forget_blobs
all-forget p ids [] = refl
all-forget p ids (m ∷ movies) = ap (λ b. p m.artefact_id && b) (all-forget p ids movies)

pub artefacts_left :
    (ids : List ℕ) (artefacts : List ArtefactRow)
    → select
        (λ a. not (in_ids a.id ids))
        (on_artefacts
          (λ a. record a { parent_artefact_id = none })
          ids
          (on_artefacts (λ a. record a { derived_from_analysis_id = none }) ids artefacts))
      ≡ select (λ a. not (in_ids a.id ids)) artefacts
artefacts_left ids artefacts =
    survivors (λ a. record a { parent_artefact_id = none }) ids
      (on_artefacts (λ a. record a { derived_from_analysis_id = none }) ids artefacts) (λ a. refl)
    ∙ survivors (λ a. record a { derived_from_analysis_id = none }) ids artefacts (λ a. refl)

-- The deletion of artefacts with all that is derived from them leaves no artefact, analysis, movie, media file,
-- partition, attachment, product or extracted file that refers to an artefact, an analysis or a partition that is gone,
-- and no restriction of a file that is.
pub delete_artefact_subtree-IsConsistent :
    (t : ArtefactTables) (ids : List ℕ) (cleanup : CleanupKeys)
    → IsClosed t.artefacts ids
    → IsConsistent t
    → IsConsistent (delete_artefact_subtree delete_extracted_files ids cleanup t)
unfolding delete_artefact_subtree refers partition_ids_of file_ids delete_extracted_files
delete_artefact_subtree-IsConsistent t [] cleanup closed v = v
delete_artefact_subtree-IsConsistent t (x ∷ xs) cleanup closed v =
    let ids = x ∷ xs in
    let rows = select (λ a. not (in_ids a.id ids)) t.artefacts in
    let own = λ (y : ℕ). any (λ a. a.id == y) rows in
    let left = artefacts_left ids t.artefacts in
    let pids = partition_ids_of ids t.partitions in
    record {
      parents = rw left (parents_left t.artefacts ids closed v.parents);
      sources = rw left (sources_left ids t.artefacts t.analyses closed v.sources);
      owners = rw left (owners_left ids t.artefacts t.analyses v.owners);
      movies = rw left (
          all-forget own cleanup.output_blob_ids
            (select (λ m. not (in_ids m.artefact_id ids)) t.replay_movies)
          ∙ all-found (λ a. a.id) ids (λ m. some m.artefact_id) t.artefacts t.replay_movies
              v.movies);
      media = rw left (
          all-forget own cleanup.output_blob_ids
            (select (λ m. not (in_ids m.artefact_id ids)) t.media_files)
          ∙ all-found (λ a. a.id) ids (λ m. some m.artefact_id) t.artefacts t.media_files v.media);
      partitions = rw left (
          all-found (λ a. a.id) ids (λ p. some p.artefact_id) t.artefacts t.partitions
            v.partitions);
      products =
          all-left (λ p. p.id) (λ p. in_ids p.artefact_id ids) (λ p. p) t.partitions t.products
            v.products;
      files =
          all-left (λ p. p.id) (λ p. in_ids p.artefact_id ids) (λ f. f.partition_id) t.partitions
            t.files v.files;
      restrictions =
          all-left (λ f. f.id) (λ f. in_ids f.partition_id pids) (λ r. r) t.files t.restrictions
            v.restrictions;
      attachments = λ k.
          rw left (
            all-found (λ a. a.id) ids (λ y. some y) t.artefacts (t.attachments k)
              (v.attachments k));
    }
