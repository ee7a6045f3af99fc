-- ===== src/Artefacts/Batches/Laws.antt =====
-- That the deletion in batches comes to the deletion in one statement, however often it is begun again.
use arcology.Base.{
  ℕ, zero, suc, ◌+◌, ◌<◌, ◌≡◌, sym, ap, ◌∙◌, true, not, ◌||◌, List, ◌∷◌, map, select, take, all,
  length, ltb, arith, inl, inr,
}
use arcology.Artefacts.{in_ids, ExtractedFileRow, ArtefactTables}
use arcology.Artefacts.Delete.{delete_extracted_files}
use arcology.Artefacts.Batches.{
  sort_ids, clear_parents, delete_batch, last_id, delete_batches, delete_extracted_files_batched,
}
use arcology.Artefacts.Batches.Sorted.{in_ids-sort}
use arcology.Artefacts.Batches.Keys.{
  is_distinct, all-imp, or_true, lower_cursor, List-cases, in_ids-head, clear, file_ids-clear,
  stay-clear, all-clear, distinct_apart,
}
use arcology.Artefacts.Batches.Files.{goes, gone, without, spec, length-without}
use arcology.Artefacts.Batches.Turn.{IsLoop, none_gone, IsLoop-batch, next_batch-above, sort-nil}

module _ (partition_ids : List ℕ) where
  fewer_files :
      (t : ArtefactTables) (ids : List ℕ) (fuel : ℕ)
      → length (gone partition_ids (without partition_ids ids t.files))
        < length (gone partition_ids t.files)
      → length (gone partition_ids t.files) < suc fuel
      → length (gone partition_ids (delete_batch ids t).files) < fuel
  unfolding delete_batch
  fewer_files t ids fuel h k = omega (arith, h, k)

  module _ (t0 : ArtefactTables) (b : ℕ) where
    -- The turns of the loop end at what one statement comes to, where there are enough of them; and any number of
    -- them keeps what the loop keeps.
    turns :
        (fuel cursor : ℕ) (t : ArtefactTables) (n : ℕ)
        → IsLoop partition_ids t0 cursor t
        → ((length (gone partition_ids t.files) < fuel)
            → (delete_batches partition_ids (suc b) fuel cursor t n).0 ≡ spec partition_ids t0)
          × ((c : ℕ) × IsLoop partition_ids t0 c
                (delete_batches partition_ids (suc b) fuel cursor t n).0)
    unfolding delete_batches
    turns zero cursor t n v = ((λ h. absurd (omega arith)), (cursor, v))
    turns (suc fuel) cursor t n v = elim (List-cases (sort_ids (gone partition_ids t.files))) [
      | inl e ↦
          let batch =
            next_batch-above partition_ids (suc b) cursor t.files v.above ∙ ap (take (suc b)) e in
          rw (batch, delete_batches)
            (
              (λ h.
                  sym (
                    none_gone partition_ids t
                      (sort-nil partition_ids (gone partition_ids t.files) e))
                  ∙ v.same),
              (cursor, v),
            )
      | inr (y, ys, e) ↦
          let batch =
            next_batch-above partition_ids (suc b) cursor t.files v.above ∙ ap (take (suc b)) e in
          let ids = y ∷ take b ys in
          let first : in_ids y (gone partition_ids t.files) ≡ true =
            sym (in_ids-sort y (gone partition_ids t.files)) ∙ ap (in_ids y) e ∙ in_ids-head y ys in
          let fewer : length (gone partition_ids (without partition_ids ids t.files))
              < length (gone partition_ids t.files) =
            ((length-without partition_ids) y ids t.files).1 first (in_ids-head y (take b ys)) in
          let (ends, keeps) =
            turns fuel (last_id y (take b ys)) (delete_batch ids t) (n + suc (length (take b ys)))
              (IsLoop-batch partition_ids t0 t cursor b y ys e v) in
          rw (batch, delete_batches) ((λ h. ends (fewer_files t ids fuel fewer h)), keeps)
    ]

  gone-clear :
      (files : List ExtractedFileRow)
      → gone partition_ids (map (clear partition_ids) files) ≡ gone partition_ids files
  gone-clear files = file_ids-clear partition_ids files

  clear-spec :
      (t : ArtefactTables)
      → spec partition_ids (clear_parents partition_ids t) ≡ spec partition_ids t
  unfolding clear_parents delete_extracted_files
  clear-spec t = λ i. record t {
    restrictions = select (λ r. not (in_ids r (gone-clear t.files i))) t.restrictions;
    files = stay-clear partition_ids t.files i;
  }

  -- The loop's premises for the table as it is before: the keys are of one file each, and above the first cursor.
  IsLoop-clear :
      (t : ArtefactTables)
      → is_distinct (map (λ f. f.id) t.files) ≡ true
      → all (λ f. ltb 0 f.id) t.files ≡ true
      → IsLoop partition_ids t 0 (clear_parents partition_ids t)
  unfolding clear_parents
  IsLoop-clear t d h = record {
    same = clear-spec t;
    apart = rw (gone-clear t.files) (
        all-clear (λ i q. in_ids q partition_ids || not (in_ids i (gone partition_ids t.files)))
          partition_ids t.files (distinct_apart partition_ids t.files d));
    above =
        all-clear (λ i q. not (in_ids q partition_ids) || ltb 0 i) partition_ids t.files
          (all-imp (λ f. ltb 0 f.id) (λ f. not (goes partition_ids f) || ltb 0 f.id) t.files
            (λ f k. rw k (or_true (not (goes partition_ids f)))) h);
  }

  IsLoop-keys :
      {t0 t : ArtefactTables} {c : ℕ} → IsLoop partition_ids t0 c t → IsLoop partition_ids t0 0 t
  IsLoop-keys {t0} {t} {c} v = record {
    same = v.same;
    apart = v.apart;
    above =
        all-imp (λ f. not (goes partition_ids f) || ltb c f.id)
          (λ f. not (goes partition_ids f) || ltb 0 f.id) t.files
          (λ f k. lower_cursor c (goes partition_ids f) f.id k) v.above;
  }

  again :
      (t0 t : ArtefactTables)
      → IsLoop partition_ids t0 0 t
      → IsLoop partition_ids t0 0 (clear_parents partition_ids t)
  unfolding clear_parents
  again t0 t v = record {
    same = clear-spec t ∙ v.same;
    apart = rw (gone-clear t.files) (
        all-clear (λ i q. in_ids q partition_ids || not (in_ids i (gone partition_ids t.files)))
          partition_ids t.files v.apart);
    above =
        all-clear (λ i q. not (in_ids q partition_ids) || ltb 0 i) partition_ids t.files v.above;
  }

  full_run :
      (t0 t : ArtefactTables) (b : ℕ)
      → IsLoop partition_ids t0 0 (clear_parents partition_ids t)
      → (delete_extracted_files_batched (suc b) partition_ids t).0
        ≡ delete_extracted_files partition_ids t0
  unfolding delete_extracted_files_batched clear_parents
  full_run t0 t b v =
      let (ends, keeps) =
        turns t0 b (suc (length (gone partition_ids t.files))) 0 (clear_parents partition_ids t) 0
          v in
      ends (omega (arith, ap length (gone-clear t.files)))

-- The deletion of the files of some partitions in batches, of any size but 0, ends in the tables that one statement
-- leaves, also where it is cut off after any number of turns and begun again: the keys are distinct and above 0.
pub delete_extracted_files_batched_lem :
    (partition_ids : List ℕ) (batch_size turns_done : ℕ) (t : ArtefactTables)
    → 0 < batch_size
    → is_distinct (map (λ f. f.id) t.files) ≡ true
    → all (λ f. ltb 0 f.id) t.files ≡ true
    → ((delete_extracted_files_batched batch_size partition_ids t).0
        ≡ delete_extracted_files partition_ids t)
      × ((delete_extracted_files_batched batch_size partition_ids
            (delete_batches partition_ids batch_size turns_done 0
              (clear_parents partition_ids t)
              0).0).0
          ≡ delete_extracted_files partition_ids t)
delete_extracted_files_batched_lem partition_ids zero turns_done t h d k = absurd (omega (arith, h))
delete_extracted_files_batched_lem partition_ids (suc b) turns_done t h d k =
    let start = IsLoop-clear partition_ids t d k in
    let cut = delete_batches partition_ids (suc b) turns_done 0 (clear_parents partition_ids t) 0 in
    let (ends, (c, v)) =
      turns partition_ids t b turns_done 0 (clear_parents partition_ids t) 0 start in
    (
      full_run partition_ids t t b start,
      full_run partition_ids t cut.0 b (again partition_ids t cut.0 (IsLoop-keys partition_ids v)),
    )
